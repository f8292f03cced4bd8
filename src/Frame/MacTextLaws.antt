-- ===== src/Frame/MacTextLaws.antt =====
-- The address that discovery prints (formatMAC of src/internal/mndp/discover.go) and parseMAC reads.
use mactelnet_proxy.Base.{
  ℕ, ◌+◌, ◌*◌, ◌/◌, ◌%◌, ◌<◌, ◌≡◌, refl, ap, arith, [], ◌∷◌, Bytes, IsByte, Mac, mac_bytes, some,
  ok, All,
}
use mactelnet_proxy.Frame.MacText.{
  hex_value, hex_byte, hex_groups, cons_byte, net_parse_mac, of_right_size, parse_mac,
}
use mactelnet_proxy.Mndp.Discover.{hex_digit, hex2, format_mac}
use mactelnet_proxy.Text.Flags.{read_arg, operand}

hex_value-hex_digit : (d : ℕ) → d < 16 → hex_value (hex_digit d) ≡ some d
unfolding hex_value
hex_value-hex_digit d h = ground arith

hex_byte-hex_digit : (b : ℕ) → b < 256 → hex_byte (hex_digit (b / 16)) (hex_digit (b % 16)) ≡ some b
unfolding hex_byte
hex_byte-hex_digit b h =
    let e : b / 16 * 16 + b % 16 ≡ b = omega arith in
    rw (hex_value-hex_digit (b / 16) (omega arith), hex_byte)
      (rw (hex_value-hex_digit (b % 16) (omega arith)) (ap some e))

hex_groups-hex2 :
    (b : ℕ) (cs : Bytes)
    → b < 256
    → hex_groups b':' (hex2 b (b':' ∷ cs)) ≡ cons_byte (some b) (hex_groups b':' cs)
unfolding hex_groups
hex_groups-hex2 b cs h = rw (hex_byte-hex_digit b h, hex_groups) refl

hex_groups_last : (b : ℕ) → b < 256 → hex_groups b':' (hex2 b []) ≡ some (b ∷ [])
unfolding hex_groups
hex_groups_last b h = rw (hex_byte-hex_digit b h, hex_groups) refl

hex_groups-format_mac :
    (a : Mac) → All IsByte (mac_bytes a) → hex_groups b':' (format_mac a) ≡ some (mac_bytes a)
unfolding format_mac
hex_groups-format_mac a h = rw (hex_groups-hex2 a.m0 _ h.0) (
    rw (hex_groups-hex2 a.m1 _ h.1.0) (
      rw (hex_groups-hex2 a.m2 _ h.1.1.0) (
        rw (hex_groups-hex2 a.m3 _ h.1.1.1.0) (
          rw (hex_groups-hex2 a.m4 _ h.1.1.1.1.0) (rw (hex_groups_last a.m5 h.1.1.1.1.1.0) refl)))))

net_parse_mac-format_mac :
    (a : Mac) → All IsByte (mac_bytes a) → net_parse_mac (format_mac a) ≡ some (mac_bytes a)
unfolding net_parse_mac format_mac
net_parse_mac-format_mac a h = ap of_right_size (hex_groups-format_mac a h)

-- The text of an address, as discovery prints it, is read back by parseMAC.
pub parse_mac-format_mac : (a : Mac) → All IsByte (mac_bytes a) → parse_mac (format_mac a) ≡ ok a
unfolding parse_mac
parse_mac-format_mac a h = rw (net_parse_mac-format_mac a h, parse_mac) refl

digit-operand : (d : ℕ) (cs : Bytes) → d < 16 → read_arg (hex_digit d ∷ cs) ≡ operand
unfolding read_arg
digit-operand d [] h = refl
digit-operand d (x ∷ []) h = ground arith
digit-operand d (x ∷ y ∷ cs) h = ground arith

-- It is no flag.
pub read_arg-format_mac : (a : Mac) → a.m0 < 256 → read_arg (format_mac a) ≡ operand
unfolding format_mac
read_arg-format_mac a h = digit-operand (a.m0 / 16) _ (omega arith)
