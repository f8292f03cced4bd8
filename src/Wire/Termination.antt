-- ===== src/Wire/Termination.antt =====
-- The loop of iterateControl in src/internal/mactelnet/protocol.go ends: each round takes bytes.
use mactelnet_proxy.Base.{
  ℕ, zero, suc, ◌≤◌, ◌≡◌, refl, arith, Bool, true, false, [], ◌∷◌, Bytes, length, take, drop,
  length-drop, byte_at,
}
use mactelnet_proxy.Wire.Header.{cp_header_len, cp_type_plain_data}
use mactelnet_proxy.Wire.Control.{ControlRecord, is_plain, body_len, iterate_from, iterate_control}

module _ {ℓ} {S : Type ℓ} (fn : ControlRecord → S → S × Bool) where
  -- One round on a payload that is left, given what the rounds after it do.
  abbrev round : Bytes → S → (Bytes → S → S) → S
  round payload s next = elim (is_plain payload) [
    | true ↦ (fn (record { cp_type = cp_type_plain_data; body = payload }) s).0
    | false ↦
        let ln = body_len payload in
        let body = drop cp_header_len payload in
        let r = fn (record { cp_type = byte_at payload 4; body = take ln body }) s in
        elim r.1 [ true ↦ next (drop ln body) r.0 | false ↦ r.0 ]
  ]

  both_cases :
      (plain more : Bool) (last stop : S) {x y : S}
      → x ≡ y
      → elim plain [ true ↦ last | false ↦ elim more [ true ↦ x | false ↦ stop ] ]
        ≡ elim plain [ true ↦ last | false ↦ elim more [ true ↦ y | false ↦ stop ] ]
  both_cases true more last stop e = refl
  both_cases false true last stop e = e
  both_cases false false last stop e = refl

  round_same :
      (b : ℕ) (bs : Bytes) (s : S) (f g : Bytes → S → S)
      → ((p : Bytes) → length p ≤ length bs → (s : S) → f p s ≡ g p s)
      → round (b ∷ bs) s f ≡ round (b ∷ bs) s g
  round_same b bs s f g h =
      let ln = body_len (b ∷ bs) in
      let body = drop cp_header_len (b ∷ bs) in
      let r = fn (record { cp_type = byte_at (b ∷ bs) 4; body = take ln body }) s in
      let short : length (drop ln body) ≤ length bs =
        omega (arith, length-drop ln body, length-drop cp_header_len (b ∷ bs)) in
      both_cases (is_plain (b ∷ bs)) r.1 _ r.0 (h (drop ln body) short r.0)

  iterate_from_same :
      (fuel fuel' : ℕ) (p : Bytes) (s : S)
      → length p ≤ fuel
      → length p ≤ fuel'
      → iterate_from fuel fn p s ≡ iterate_from fuel' fn p s
  unfolding iterate_from
  iterate_from_same fuel fuel' [] s h k = refl
  iterate_from_same zero fuel' (b ∷ bs) s h k = absurd (omega arith)
  iterate_from_same (suc fuel) zero (b ∷ bs) s h k = absurd (omega arith)
  iterate_from_same (suc fuel) (suc fuel') (b ∷ bs) s h k =
      round_same b bs s (iterate_from fuel fn) (iterate_from fuel' fn)
        (λ p short s. iterate_from_same fuel fuel' p s (omega arith) (omega arith))

  -- Whatever the callback does, the loop is at its end within as many rounds as the payload has bytes:
  -- any larger fuel gives the result of iterateControl.
  pub iterate_from-iterate_control :
      (fuel : ℕ) (payload : Bytes) (s : S)
      → length payload ≤ fuel
      → iterate_from fuel fn payload s ≡ iterate_control fn payload s
  unfolding iterate_control
  iterate_from-iterate_control fuel payload s h =
      iterate_from_same fuel (length payload) payload s h (omega arith)
