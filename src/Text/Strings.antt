-- ===== src/Text/Strings.antt =====
-- What the code uses of Go's strings package and of fmt's padding. A text is the list of its runes,
-- which are its bytes as long as it is ASCII.
use Prim.Native.Char.{code}
use Prim.Native.String.{String}
use mactelnet_proxy.Base.{
  ℕ, ◌+◌, ◌-◌, Bool, true, false, ◌&&◌, ◌||◌, if◌then◌else◌, ltb, leb, ◌==◌, List, [], ◌∷◌, ◌++◌,
  Bytes, Option, none, some, length, replicate,
}

-- The runes of a literal.
abbrev pub codes : String → Bytes
codes String.[] = []
codes (String.◌∷◌ c s) = code c ∷ codes s

-- `unicode.IsSpace`
unfoldable pub is_space : ℕ → Bool
is_space r =
    (leb 9 r && leb r 13)
    || r == 0x20
    || r == 0x85
    || r == 0xa0
    || r == 0x1680
    || (leb 0x2000 r && leb r 0x200a)
    || r == 0x2028
    || r == 0x2029
    || r == 0x202f
    || r == 0x205f
    || r == 0x3000

-- `s == ""`
abbrev pub is_empty : Bytes → Bool
is_empty [] = true
is_empty (c ∷ cs) = false

abbrev pub cons_first : ℕ → List Bytes → List Bytes
cons_first c [] = (c ∷ []) ∷ []
cons_first c (line ∷ lines) = (c ∷ line) ∷ lines

-- `strings.Split(s, "\n")`
unfoldable pub split_lines : Bytes → List Bytes
split_lines [] = [] ∷ []
split_lines (c ∷ cs) = let rest = split_lines cs in if c == 10 then [] ∷ rest else cons_first c rest

-- `strings.Join(parts, sep)`
unfoldable pub join : Bytes → List Bytes → Bytes
join sep [] = []
join sep (part ∷ []) = part
join sep (part ∷ next ∷ parts) = part ++ (sep ++ join sep (next ∷ parts))

-- `strings.CutPrefix`; `HasPrefix` is its second result.
unfoldable pub cut_prefix : Bytes → Bytes → Option Bytes
cut_prefix cs [] = some cs
cut_prefix [] (p ∷ ps) = none
cut_prefix (c ∷ cs) (p ∷ ps) = let rest = cut_prefix cs ps in if c == p then rest else none

-- `strings.TrimSpace`
unfoldable pub trim_left : Bytes → Bytes
trim_left [] = []
trim_left (c ∷ cs) = let rest = trim_left cs in if is_space c then rest else c ∷ cs

unfoldable pub trim_right : Bytes → Bytes
trim_right [] = []
trim_right (c ∷ cs) =
    let rest = trim_right cs in if is_empty rest && is_space c then [] else c ∷ rest

unfoldable pub trim_space : Bytes → Bytes
trim_space s = trim_right (trim_left s)

-- `strings.Fields`: the runs of runes that are no spaces.
unfoldable pub fields : Bytes → List Bytes
fields [] = []
fields (c ∷ []) = if is_space c then [] else (c ∷ []) ∷ []
fields (c ∷ d ∷ cs) =
    let rest = fields (d ∷ cs) in
    if is_space c then rest else if is_space d then (c ∷ []) ∷ rest else cons_first c rest

-- `strings.ToLower` on ASCII.
unfoldable pub lower : ℕ → ℕ
lower c = if leb b'A' c && leb c b'Z' then c + 32 else c

unfoldable pub to_lower : Bytes → Bytes
to_lower [] = []
to_lower (c ∷ cs) = lower c ∷ to_lower cs

-- `%-*s` and `%*s`: fmt counts runes.
unfoldable pub pad_right : ℕ → Bytes → Bytes
pad_right w s = s ++ replicate (w - length s) 32

unfoldable pub pad_left : ℕ → Bytes → Bytes
pad_left w s = replicate (w - length s) 32 ++ s

-- `len(s)`: the bytes of the runes in UTF-8.
abbrev pub rune_len : ℕ → ℕ
rune_len r = if ltb r 0x80 then 1 else if ltb r 0x800 then 2 else if ltb r 0x10000 then 3 else 4

unfoldable pub byte_len : Bytes → ℕ
byte_len [] = 0
byte_len (r ∷ rs) = rune_len r + byte_len rs

-- `filepath.Base` of a path without a trailing slash: what follows the last slash.
unfoldable pub after_slash : Bytes → Bytes → Bytes
after_slash [] cur = cur
after_slash (c ∷ cs) cur = after_slash cs (if c == b'/' then [] else cur ++ c ∷ [])
