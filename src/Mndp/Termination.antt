-- ===== src/Mndp/Termination.antt =====
-- The loop over the attributes in src/internal/mndp/parser.go ends: each round takes at least four bytes.
use mactelnet_proxy.Base.{
  ℕ, zero, suc, ◌≤◌, ◌≡◌, refl, sym, ◌∙◌, arith, Bool, true, if◌then◌else◌, ltb, inl, inr,
  Bool-cases, Bytes, length, take, drop, length-drop, be16_at,
}
use mactelnet_proxy.Mndp.Parser.{Packet, apply_attr, parse_attrs}

-- A trailer that is too short for an attribute is at the end.
attrs_end :
    (fuel : ℕ) (p : Bytes) (pkt : Packet) → ltb (length p) 4 ≡ true → parse_attrs fuel p pkt ≡ pkt
unfolding parse_attrs
attrs_end zero p pkt h = refl
attrs_end (suc fuel) p pkt h = rw (h, parse_attrs) refl

same_next :
    {A : Type 0} (a b : Bool) (x : A) {y z : A}
    → y ≡ z
    → (if a then x else if b then x else y) ≡ (if a then x else if b then x else z)
same_next a b x e = rw e refl

parse_attrs_same :
    (fuel fuel' : ℕ) (p : Bytes) (pkt : Packet)
    → length p ≤ fuel
    → length p ≤ fuel'
    → parse_attrs fuel p pkt ≡ parse_attrs fuel' p pkt
unfolding parse_attrs
parse_attrs_same zero fuel' p pkt h k = sym (attrs_end fuel' p pkt (ground arith))
parse_attrs_same (suc fuel) zero p pkt h k = attrs_end (suc fuel) p pkt (ground arith)
parse_attrs_same (suc fuel) (suc fuel') p pkt h k = elim (Bool-cases (ltb (length p) 4)) [
  | inl short ↦ attrs_end (suc fuel) p pkt short ∙ sym (attrs_end (suc fuel') p pkt short)
  | inr long ↦
      let rest = drop 4 p in
      let ln = be16_at p 2 in
      let e = length-drop 4 p in
      let f = length-drop ln rest in
      let l : 4 ≤ length p = ground (arith, long) in
      same_next (ltb (length p) 4) (ltb (length rest) ln) pkt (
        parse_attrs_same fuel fuel' (drop ln rest) (apply_attr (be16_at p 0) (take ln rest) pkt)
          (omega (arith, e, f, l)) (omega (arith, e, f, l)))
]

-- The loop is at its end within as many rounds as there are bytes: more fuel changes nothing.
pub parse_attrs_enough :
    (fuel : ℕ) (p : Bytes) (pkt : Packet)
    → length p ≤ fuel
    → parse_attrs fuel p pkt ≡ parse_attrs (length p) p pkt
parse_attrs_enough fuel p pkt h = parse_attrs_same fuel (length p) p pkt h (omega arith)
