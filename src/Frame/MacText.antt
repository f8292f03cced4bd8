-- ===== src/Frame/MacText.antt =====
-- src/internal/mactelnet/conn.go: parseMAC, over Go's net.ParseMAC.
use mactelnet_proxy.Base.{
  ℕ, ◌+◌, ◌-◌, ◌*◌, ◌||◌, if◌then◌else◌, leb, ◌==◌, [], ◌∷◌, Bytes, Mac, mac_at, Option, none, some,
  Result, ok, err, length,
}

-- The value of a hexadecimal digit.
unfoldable pub hex_value : ℕ → Option ℕ
hex_value c =
    if leb b'0' c
    then (if leb c b'9'
        then some (c - b'0')
        else if leb b'a' c
        then (if leb c b'f' then some (c - b'a' + 10) else none)
        else if leb b'A' c
        then (if leb c b'F' then some (c - b'A' + 10) else none)
        else none)
    else none

-- `xtoi2`
unfoldable pub hex_byte : ℕ → ℕ → Option ℕ
hex_byte h l = elim (hex_value h) [
  | none ↦ none
  | some x ↦ elim (hex_value l) [ none ↦ none | some y ↦ some (x * 16 + y) ]
]

abbrev pub cons_byte : Option ℕ → Option Bytes → Option Bytes
cons_byte (some b) (some bs) = some (b ∷ bs)
cons_byte _ _ = none

-- "aa:bb:cc" with a separator between the bytes.
unfoldable pub hex_groups : ℕ → Bytes → Option Bytes
hex_groups sep (h ∷ l ∷ []) = cons_byte (hex_byte h l) (some [])
hex_groups sep (h ∷ l ∷ c ∷ cs) =
    let rest = hex_groups sep cs in if c == sep then cons_byte (hex_byte h l) rest else none
hex_groups sep _ = none

-- "aabb.ccdd"
unfoldable pub hex_pairs : Bytes → Option Bytes
hex_pairs (a ∷ b ∷ c ∷ d ∷ []) = cons_byte (hex_byte a b) (cons_byte (hex_byte c d) (some []))
hex_pairs (a ∷ b ∷ c ∷ d ∷ e ∷ cs) =
    let rest = hex_pairs cs in
    if e == b'.' then cons_byte (hex_byte a b) (cons_byte (hex_byte c d) rest) else none
hex_pairs _ = none

-- An address has 6, 8 or 20 bytes.
abbrev right_size : Bytes → Option Bytes
right_size hw = if length hw == 6 || length hw == 8 || length hw == 20 then some hw else none

abbrev pub of_right_size : Option Bytes → Option Bytes
of_right_size none = none
of_right_size (some hw) = right_size hw

-- `net.ParseMAC`: the third byte tells the separator, else the fifth is a dot.
unfoldable pub net_parse_mac : Bytes → Option Bytes
net_parse_mac (a ∷ b ∷ c ∷ d ∷ e ∷ cs) =
    let s : Bytes = a ∷ b ∷ c ∷ d ∷ e ∷ cs in
    if c == b':' || c == b'-'
    then of_right_size (hex_groups c s)
    else if e == b'.'
    then of_right_size (hex_pairs s)
    else none
net_parse_mac _ = none

pub data MacError : Type 0 where
  bad_mac : MacError
  wrong_size : ℕ → MacError

abbrev pub six_bytes : Bytes → Result MacError Mac
six_bytes hw = if length hw == 6 then ok (mac_at hw 0) else err (wrong_size (length hw))

-- `parseMAC`
unfoldable pub parse_mac : Bytes → Result MacError Mac
parse_mac s = elim (net_parse_mac s) [ none ↦ err bad_mac | some hw ↦ six_bytes hw ]
