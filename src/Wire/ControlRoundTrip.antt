-- ===== src/Wire/ControlRoundTrip.antt =====
-- What encodeControl and iterateControl of src/internal/mactelnet/protocol.go guarantee together.
use mactelnet_proxy.Base.{
  ℕ, zero, suc, ◌+◌, ◌%◌, ◌≤◌, ◌<◌, ◌≡◌, ◌≢◌, refl, ◌∙◌, arith, Bool, true, false, [], ◌∷◌, ◌++◌,
  Bytes, be32, byte_at, u32_mod, ok, length, drop, take, drop-drop, overwrite_fits, length-append,
  length-drop, take-append_le, drop-append_le, if◌then◌else◌, ltb,
}
use mactelnet_proxy.Wire.Header.{cp_type_plain_data, cp_magic, cp_header_len}
use mactelnet_proxy.Wire.Control.{
  ControlRecord, encode_control, is_plain, body_len, iterate_from, iterate_control,
}

-- A framed record: magic, kind, length and body.
abbrev pub record_bytes : ControlRecord → Bytes
record_bytes r = cp_magic ++ r.cp_type ∷ (be32 (length r.body % u32_mod) ++ r.body)

fits_cases : (n : ℕ) (buf : Bytes) → (ltb (length buf) n ≡ true) → length buf < n
fits_cases n buf h = ground arith

-- Where the record fits, encodeControl writes it at the front of the buffer and leaves the rest.
pub encode_control_bytes :
    (buf : Bytes) (r : ControlRecord)
    → r.cp_type ≢ cp_type_plain_data
    → cp_header_len + length r.body ≤ length buf
    → encode_control buf r.cp_type r.body
      ≡ ok (
        cp_header_len + length r.body,
        record_bytes r ++ drop (cp_header_len + length r.body) buf,
      )
unfolding encode_control
encode_control_bytes (b0 ∷ b1 ∷ b2 ∷ b3 ∷ b4 ∷ b5 ∷ b6 ∷ b7 ∷ b8 ∷ rest) r ne k =
    rw (← drop-drop 9 (length r.body) (b0 ∷ b1 ∷ b2 ∷ b3 ∷ b4 ∷ b5 ∷ b6 ∷ b7 ∷ b8 ∷ rest))
      (ground (arith, overwrite_fits r.body rest))
encode_control_bytes _ r ne k = absurd (omega arith)

-- The first record of a framed payload, and what follows it.
abbrev pub first_record : Bytes → ControlRecord
first_record p = record { cp_type = byte_at p 4; body = take (body_len p) (drop cp_header_len p) }

abbrev pub after_record : Bytes → Bytes
after_record p = drop (body_len p) (drop cp_header_len p)

-- One round takes at least nine bytes.
round_shrinks :
    (payload : Bytes)
    → is_plain payload ≡ false
    → length (after_record payload) + 9 ≤ length payload
unfolding is_plain
round_shrinks payload h = ground (
  arith,
  length-drop (body_len payload) (drop cp_header_len payload),
  length-drop cp_header_len payload,
)

-- Any two amounts of fuel that cover the payload give the same result.
pub iterate_from_fuel {ℓ} :
    {S : Type ℓ} (f g : ℕ) (fn : ControlRecord → S → S × Bool) (payload : Bytes) (s : S)
    → length payload ≤ f
    → length payload ≤ g
    → iterate_from f fn payload s ≡ iterate_from g fn payload s
unfolding iterate_from
iterate_from_fuel zero zero fn [] s hf hg = refl
iterate_from_fuel zero zero fn (b ∷ bs) s hf hg = refl
iterate_from_fuel zero (suc g) fn [] s hf hg = refl
iterate_from_fuel (suc f) zero fn [] s hf hg = refl
iterate_from_fuel (suc f) (suc g) fn [] s hf hg = refl
iterate_from_fuel zero (suc g) fn (b ∷ bs) s hf hg = absurd (omega arith)
iterate_from_fuel (suc f) zero fn (b ∷ bs) s hf hg = absurd (omega arith)
iterate_from_fuel (suc f) (suc g) fn (b ∷ bs) s hf hg =
    let p = b ∷ bs in
    ground
      (arith, round_shrinks p, iterate_from_fuel f g fn (after_record p) (fn (first_record p) s).0)

-- One record in front: the callback sees it, and the loop goes on behind it or stops.
pub iterate_control_step {ℓ} :
    {S : Type ℓ} (fn : ControlRecord → S → S × Bool) (b : ℕ) (bs : Bytes) (s : S)
    → is_plain (b ∷ bs) ≡ false
    → iterate_control fn (b ∷ bs) s ≡ (
        let r = fn (first_record (b ∷ bs)) s in
        if r.1 then iterate_control fn (after_record (b ∷ bs)) r.0 else r.0)
unfolding iterate_control iterate_from
iterate_control_step fn b bs s framed =
    let p = b ∷ bs in
    ground (
      arith,
      round_shrinks p,
      iterate_from_fuel (length bs) (length (after_record p)) fn (after_record p)
          (fn (first_record p) s).0,
    )

-- What is no framed record goes to the callback whole, as plain data, once.
pub iterate_control_plain {ℓ} :
    {S : Type ℓ} (fn : ControlRecord → S → S × Bool) (b : ℕ) (bs : Bytes) (s : S)
    → is_plain (b ∷ bs) ≡ true
    → iterate_control fn (b ∷ bs) s
      ≡ (fn (record { cp_type = cp_type_plain_data; body = b ∷ bs }) s).0
unfolding iterate_control iterate_from
iterate_control_plain fn b bs s plain = ground arith

record_bytes-is_plain :
    (r : ControlRecord) (rest : Bytes) → is_plain (record_bytes r ++ rest) ≡ false
unfolding is_plain
record_bytes-is_plain r rest = ground arith

record_bytes-body_len :
    (r : ControlRecord) (rest : Bytes)
    → length r.body + length rest < u32_mod
    → body_len (record_bytes r ++ rest) ≡ length r.body
unfolding body_len
record_bytes-body_len r rest h = ground (arith, length-append r.body rest)

record_bytes-first_record :
    (r : ControlRecord) (rest : Bytes)
    → length r.body + length rest < u32_mod
    → first_record (record_bytes r ++ rest) ≡ r
record_bytes-first_record r rest h =
    rw (record_bytes-body_len r rest h, take-append_le (length r.body) r.body rest refl)

record_bytes-after_record :
    (r : ControlRecord) (rest : Bytes)
    → length r.body + length rest < u32_mod
    → after_record (record_bytes r ++ rest) ≡ rest
record_bytes-after_record r rest h =
    rw (record_bytes-body_len r rest h) (drop-append_le (length r.body) r.body rest refl)

-- The loop of iterateControl over a framed record hands exactly that record to the callback, and
-- then, if the callback says so, goes on with exactly what follows it.
pub iterate_control-record {ℓ} :
    {S : Type ℓ} (fn : ControlRecord → S → S × Bool) (r : ControlRecord) (rest : Bytes) (s : S)
    → length r.body + length rest < u32_mod
    → iterate_control fn (record_bytes r ++ rest) s
      ≡ (if (fn r s).1 then iterate_control fn rest (fn r s).0 else (fn r s).0)
iterate_control-record fn r rest s h =
    iterate_control_step fn _ _ s (record_bytes-is_plain r rest)
    ∙ rw (record_bytes-first_record r rest h, record_bytes-after_record r rest h)
