-- ===== src/Wire/Control.antt =====
-- src/internal/mactelnet/protocol.go: encodeControl and iterateControl.
use mactelnet_proxy.Base.{
  ℕ, zero, suc, ◌+◌, ◌%◌, Bool, true, false, not, ◌||◌, if◌then◌else◌, ltb, ◌==◌, List, [], ◌∷◌,
  ◌++◌, Bytes, equal, byte_at, slice, copy_at, be32, be32_at, u32_mod, Result, ok, err, length,
  take, drop,
}
use mactelnet_proxy.Wire.Header.{
  CpType, WireError, short_control, cp_type_plain_data, cp_magic, cp_header_len,
}

-- `encodeControl`: the number of bytes written, and the buffer after it. The length field is the
-- body's length as a uint32.
unfoldable pub encode_control : Bytes → CpType → Bytes → Result WireError (ℕ × Bytes)
encode_control buf ct body =
    if ct == cp_type_plain_data
    then (if ltb (length buf) (length body)
        then err short_control
        else ok (length body, copy_at buf 0 body))
    else (if ltb (length buf) (cp_header_len + length body)
        then err short_control
        else ok (
          cp_header_len + length body,
          let b = copy_at buf 0 cp_magic in
              let b = copy_at b 4 (ct ∷ []) in
              let b = copy_at b 5 (be32 (length body % u32_mod)) in copy_at b cp_header_len body,
        ))

pub record ControlRecord : Type 0 where
  pub cp_type : CpType
  pub body : Bytes

-- The test at the head of the loop: the rest is plain data.
unfoldable pub is_plain : Bytes → Bool
is_plain payload = ltb (length payload) cp_header_len || not (equal (slice payload 0 4) cp_magic)

-- `ln`, clamped to what is there.
unfoldable pub body_len : Bytes → ℕ
body_len payload =
    let ln = be32_at payload 5 in
    let have = length (drop cp_header_len payload) % u32_mod in if ltb have ln then have else ln

-- `iterateControl` over a callback with a state: the callback answers whether to go on. Each round
-- takes at least nine bytes, so the length of the payload is fuel enough.
unfoldable pub iterate_from {ℓ} : {S : Type ℓ} → ℕ → (ControlRecord → S → S × Bool) → Bytes → S → S
iterate_from fuel fn [] s = s
iterate_from zero fn (b ∷ bs) s = s
iterate_from (suc fuel) fn (b ∷ bs) s =
    let payload = b ∷ bs in
    elim (is_plain payload) [
      | true ↦ (fn (record { cp_type = cp_type_plain_data; body = payload }) s).0
      | false ↦
          let ln = body_len payload in
          let body = drop cp_header_len payload in
          let r = fn (record { cp_type = byte_at payload 4; body = take ln body }) s in
          elim r.1 [ true ↦ iterate_from fuel fn (drop ln body) r.0 | false ↦ r.0 ]
    ]

unfoldable pub iterate_control {ℓ} : {S : Type ℓ} → (ControlRecord → S → S × Bool) → Bytes → S → S
iterate_control fn payload s = iterate_from (length payload) fn payload s

-- A callback that keeps every record and never stops: the sequence of the calls.
abbrev pub collect : ControlRecord → List ControlRecord → List ControlRecord × Bool
collect r rs = (rs ++ r ∷ [], true)

unfoldable pub records : Bytes → List ControlRecord
records payload = iterate_control collect payload []
