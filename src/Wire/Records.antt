-- ===== src/Wire/Records.antt =====
-- The records that iterateControl of src/internal/mactelnet/protocol.go finds in a payload.
use mactelnet_proxy.Base.{
  ℕ, zero, suc, ◌+◌, ◌%◌, ◌<◌, ◌≡◌, refl, sym, ◌∙◌, ap, arith, true, false, List, [], ◌∷◌, ◌++◌,
  Bytes, be32, u32_mod, length, length-append, append_assoc, append-nil, Bool-cases, inl, inr,
  take_all, drop_all,
}
use mactelnet_proxy.Wire.Header.{cp_type_plain_data, cp_magic}
use mactelnet_proxy.Wire.Control.{
  ControlRecord, is_plain, body_len, iterate_from, iterate_control, collect, records,
}
use mactelnet_proxy.Wire.ControlRoundTrip.{
  record_bytes, first_record, after_record, iterate_control_step, iterate_control_plain,
  iterate_control-record,
}

collect_from :
    (f : ℕ) (p : Bytes) (acc : List ControlRecord)
    → iterate_from f collect p acc ≡ acc ++ iterate_from f collect p []
unfolding iterate_from
collect_from zero [] acc = sym (append-nil acc)
collect_from zero (b ∷ bs) acc = sym (append-nil acc)
collect_from (suc f) [] acc = sym (append-nil acc)
collect_from (suc f) (b ∷ bs) acc = elim (Bool-cases (is_plain (b ∷ bs))) [
  | inl plain ↦ rw (plain, iterate_from)
  | inr framed ↦
      rw (framed, iterate_from)
        (collect_from f (after_record (b ∷ bs)) (acc ++ first_record (b ∷ bs) ∷ [])
          ∙ append_assoc acc (first_record (b ∷ bs) ∷ []) _
          ∙ ap (◌++◌ acc)
              (sym (collect_from f (after_record (b ∷ bs)) (first_record (b ∷ bs) ∷ []))))
]

collect-records :
    (p : Bytes) (acc : List ControlRecord) → iterate_control collect p acc ≡ acc ++ records p
unfolding iterate_control records
collect-records p acc = collect_from (length p) p acc

records-record :
    (r : ControlRecord) (rest : Bytes)
    → length r.body + length rest < u32_mod
    → records (record_bytes r ++ rest) ≡ r ∷ records rest
unfolding records
records-record r rest h = iterate_control-record collect r rest [] h ∙ collect-records rest (r ∷ [])

abbrev pub wire : List ControlRecord → Bytes
wire [] = []
wire (r ∷ rs) = record_bytes r ++ wire rs

-- The records of a payload are read back in order, each once, with its kind and body, whatever
-- follows them.
pub records-wire :
    (rs : List ControlRecord) (tail : Bytes)
    → length (wire rs) + length tail < u32_mod
    → records (wire rs ++ tail) ≡ rs ++ records tail
records-wire [] tail h = refl
records-wire (r ∷ rs) tail h = rw (append_assoc (record_bytes r) (wire rs) tail) (
    records-record r (wire rs ++ tail) (
      omega (
        arith,
        length-append (record_bytes r) (wire rs),
        length-append (wire rs) tail,
        length-append (be32 (length r.body % u32_mod)) r.body,
      ))
    ∙ ap (◌∷◌ r) (records-wire rs tail (omega (arith, length-append (record_bytes r) (wire rs)))))

pub records_empty : records [] ≡ []
unfolding records iterate_control iterate_from
records_empty = refl

-- A payload that is too short for a record or does not begin with the magic is plain data as a whole.
pub records_plain :
    (b : ℕ) (bs : Bytes)
    → is_plain (b ∷ bs) ≡ true
    → records (b ∷ bs) ≡ record { cp_type = cp_type_plain_data; body = b ∷ bs } ∷ []
unfolding records
records_plain b bs plain = iterate_control_plain collect b bs [] plain

abbrev claims : ℕ → ℕ → Bytes → Bytes
claims ct n body = cp_magic ++ ct ∷ (be32 n ++ body)

claims-is_plain : (ct n : ℕ) (body : Bytes) → is_plain (claims ct n body) ≡ false
unfolding is_plain
claims-is_plain ct n body = ground arith

claims-body_len :
    (ct n : ℕ) (body : Bytes)
    → length body < n
    → n < u32_mod
    → body_len (claims ct n body) ≡ length body
unfolding body_len
claims-body_len ct n body short h = ground arith

-- A record that claims more bytes than are left is surfaced with those that are left, and is the
-- last one.
pub records_truncated :
    (ct n : ℕ) (body : Bytes)
    → length body < n
    → n < u32_mod
    → records (cp_magic ++ ct ∷ (be32 n ++ body)) ≡ record { cp_type = ct; body = body } ∷ []
unfolding records
records_truncated ct n body short h =
    iterate_control_step collect _ _ [] (claims-is_plain ct n body)
    ∙ rw
        (
          claims-body_len ct n body short h,
          take_all (length body) body (omega arith),
          drop_all (length body) body (omega arith),
        )
        (unfold iterate_control iterate_from in refl)
