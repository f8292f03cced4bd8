-- ===== src/Mndp/ParseBuild.antt =====
-- What ParsePacket of src/internal/mndp/parser.go returns for a datagram laid out as its header
-- comment says.
use mactelnet_proxy.Base.{
  ℕ, zero, suc, ◌≤◌, ◌<◌, ◌≡◌, ◌≢◌, ◌↔◌, ◌⊎◌, refl, ◌∙◌, arith, List, [], ◌∷◌, ◌++◌, Bytes, be16,
  be16_at, be16_value, u16_mod, ok, err, length, drop, All, length-append, take-append_le,
  drop-append_le, append_assoc,
}
use mactelnet_proxy.Mndp.Parser.{
  Packet, short_packet, blank_packet, apply_attr, parse_attrs, parse_packet, min_packet_len,
}

-- An attribute: its type and value.
pub record Tlv : Type 0 where
  pub typ : ℕ
  pub val : Bytes

abbrev pub IsTlv : Tlv → Type 0
IsTlv t = (t.typ < u16_mod) × (length t.val < u16_mod)

abbrev pub tlv_bytes : Tlv → Bytes
tlv_bytes t = be16 t.typ ++ (be16 (length t.val) ++ t.val)

abbrev pub tlvs_bytes : List Tlv → Bytes
tlvs_bytes [] = []
tlvs_bytes (t ∷ ts) = tlv_bytes t ++ tlvs_bytes ts

abbrev pub build_packet : ℕ → ℕ → ℕ → List Tlv → Bytes → Bytes
build_packet version ttl cksum ts trailer =
    version ∷ ttl ∷ (be16 cksum ++ (tlvs_bytes ts ++ trailer))

abbrev pub apply_all : List Tlv → Packet → Packet
apply_all [] pkt = pkt
apply_all (t ∷ ts) pkt = apply_all ts (apply_attr t.typ t.val pkt)

-- What ends the loop: fewer than four bytes, or a length that goes past the end.
abbrev pub Stops : Bytes → Type 0
Stops p = (length p < 4) ⊎ (length (drop 4 p) < be16_at p 2)

parse_attrs_stop : (fuel : ℕ) (p : Bytes) (pkt : Packet) → Stops p → parse_attrs fuel p pkt ≡ pkt
unfolding parse_attrs
parse_attrs_stop zero p pkt s = refl
parse_attrs_stop (suc fuel) p pkt s = ground arith

parse_attrs_step :
    (fuel : ℕ) (t : Tlv) (rest : Bytes) (pkt : Packet)
    → IsTlv t
    → parse_attrs (suc fuel) (tlv_bytes t ++ rest) pkt
      ≡ parse_attrs fuel rest (apply_attr t.typ t.val pkt)
unfolding parse_attrs
parse_attrs_step fuel t rest pkt h =
    rw
      (
        be16_value t.typ h.0,
        be16_value (length t.val) h.1,
        take-append_le (length t.val) t.val rest refl,
        drop-append_le (length t.val) t.val rest refl,
      )
      (ground (arith, length-append t.val rest))

parse_attrs-tlvs :
    (ts : List Tlv) (fuel : ℕ) (trailer : Bytes) (pkt : Packet)
    → All IsTlv ts
    → Stops trailer
    → length (tlvs_bytes ts) ≤ fuel
    → parse_attrs fuel (tlvs_bytes ts ++ trailer) pkt ≡ apply_all ts pkt
parse_attrs-tlvs [] fuel trailer pkt h s k = parse_attrs_stop fuel trailer pkt s
parse_attrs-tlvs (t ∷ ts) zero trailer pkt h s k = absurd (omega arith)
parse_attrs-tlvs (t ∷ ts) (suc fuel) trailer pkt h s k =
    rw (append_assoc (tlv_bytes t) (tlvs_bytes ts) trailer) (
      parse_attrs_step fuel t (tlvs_bytes ts ++ trailer) pkt h.0
      ∙ parse_attrs-tlvs ts fuel trailer (apply_attr t.typ t.val pkt) h.1 s
          (omega (arith, length-append (tlv_bytes t) (tlvs_bytes ts))))

-- A datagram of at least 18 bytes parses to the effects of its attributes, in order, on a packet
-- with its header; what follows them and is no whole attribute is ignored.
pub parse_packet-build_packet :
    (version ttl cksum : ℕ) (ts : List Tlv) (trailer : Bytes)
    → cksum < u16_mod
    → All IsTlv ts
    → Stops trailer
    → min_packet_len ≤ length (build_packet version ttl cksum ts trailer)
    → parse_packet (build_packet version ttl cksum ts trailer)
      ≡ ok (apply_all ts (blank_packet version ttl cksum))
unfolding parse_packet
parse_packet-build_packet version ttl cksum ts trailer c h s k =
    let size = length (build_packet version ttl cksum ts trailer) in
    let blank = blank_packet version ttl cksum in
    let parsed =
      parse_attrs-tlvs ts size trailer blank h s
        (omega (arith, length-append (tlvs_bytes ts) trailer)) in
    rw (be16_value cksum c) (ground (arith, parsed))

-- A datagram is refused exactly if it has fewer than 18 bytes.
pub parse_packet-short :
    (buf : Bytes) → (parse_packet buf ≡ err short_packet) ↔ (length buf < min_packet_len)
unfolding parse_packet
parse_packet-short buf = ground arith

-- Attributes of different types do not disturb one another: their order is of no account.
pub apply_attr_comm :
    (t u : ℕ) (v w : Bytes) (pkt : Packet)
    → t ≢ u
    → apply_attr t v (apply_attr u w pkt) ≡ apply_attr u w (apply_attr t v pkt)
unfolding apply_attr
apply_attr_comm t u v w pkt ne = ground arith
