-- ===== src/Text/Numbers.antt =====
-- What the code uses of Go's strconv package: Itoa, Atoi, ParseUint, ParseInt and ParseBool.
use mactelnet_proxy.Base.{
  ℕ, zero, suc, ◌+◌, ◌-◌, ◌*◌, ◌/◌, ◌%◌, Bool, true, false, not, ◌&&◌, ◌||◌, if◌then◌else◌, ltb,
  leb, ◌==◌, List, [], ◌∷◌, ◌++◌, Bytes, equal, Option, none, some,
}
use mactelnet_proxy.Text.Strings.{codes, lower}

-- A signed integer: `negsuc n` is -(n + 1).
pub data ℤ : Type 0 where
  pos negsuc : ℕ → ℤ

abbrev pub u64_max : ℕ
u64_max = 18_446_744_073_709_551_615

abbrev pub i63 : ℕ
i63 = 9_223_372_036_854_775_808

-- `strconv.Itoa` of a number that is not negative; each round takes a digit.
unfoldable pub itoa_from : ℕ → ℕ → Bytes
itoa_from zero n = []
itoa_from (suc fuel) n = elim (ltb n 10) [
  | true ↦ (b'0' + n) ∷ []
  | false ↦ itoa_from fuel (n / 10) ++ (b'0' + n % 10) ∷ []
]

unfoldable pub itoa : ℕ → Bytes
itoa n = itoa_from (suc n) n

-- The value of a digit below 36.
unfoldable pub digit_value : ℕ → Option ℕ
digit_value c =
    if leb b'0' c && leb c b'9'
    then some (c - b'0')
    else if leb b'a' (lower c) && leb (lower c) b'z'
    then some (lower c - b'a' + 10)
    else none

-- One digit more, with the tests for the base and for the range.
unfoldable pub push_digit : ℕ → ℕ → ℕ → ℕ → Option ℕ
push_digit base max n c = elim (digit_value c) [
  | none ↦ none
  | some d ↦
      if leb base d then none else if ltb max (n * base + d) then none else some (n * base + d)
]

-- The loop of `strconv.ParseUint`; underscores are passed over where the base was left open.
unfoldable pub parse_digits : Bool → ℕ → ℕ → Bytes → ℕ → Option ℕ
parse_digits base0 base max [] n = some n
parse_digits base0 base max (c ∷ cs) n = elim (c == b'_' && base0) [
  | true ↦ parse_digits base0 base max cs n
  | false ↦ elim (push_digit base max n c) [
    | none ↦ none
    | some m ↦ parse_digits base0 base max cs m
  ]
]

-- `underscoreOK`: an underscore stands behind a digit or the prefix and before a digit.
pub data Before : Type 0 where
  at_start at_digit at_underscore at_other : Before

abbrev is_digit : Bool → ℕ → Bool
is_digit hex c = (leb b'0' c && leb c b'9') || (hex && leb b'a' (lower c) && leb (lower c) b'f')

unfoldable pub underscores_from : Bool → Before → Bytes → Bool
underscores_from hex at_underscore [] = false
underscores_from hex _ [] = true
underscores_from hex before (c ∷ cs) = elim (is_digit hex c) [
  | true ↦ underscores_from hex at_digit cs
  | false ↦ elim (c == b'_') [
    | true ↦ elim before [ at_digit ↦ underscores_from hex at_underscore cs | _ ↦ false ]
    | false ↦ elim before [ at_underscore ↦ false | _ ↦ underscores_from hex at_other cs ]
  ]
]

-- The prefix of a number whose base is left open: the base, and what follows.
unfoldable pub read_base : Bytes → ℕ × Bytes
read_base [] = (10, [])
read_base (z ∷ []) = if z == b'0' then (8, []) else (10, z ∷ [])
read_base (z ∷ c ∷ []) = if z == b'0' then (8, c ∷ []) else (10, z ∷ c ∷ [])
read_base (z ∷ c ∷ d ∷ cs) =
    if not (z == b'0')
    then (10, z ∷ c ∷ d ∷ cs)
    else if lower c == b'b'
    then (2, d ∷ cs)
    else if lower c == b'o'
    then (8, d ∷ cs)
    else if lower c == b'x'
    then (16, d ∷ cs)
    else (8, c ∷ d ∷ cs)

abbrev is_prefix_letter : ℕ → Bool
is_prefix_letter c = lower c == b'b' || lower c == b'o' || lower c == b'x'

unfoldable pub underscore_ok : Bytes → Bool
underscore_ok [] = true
underscore_ok (z ∷ []) = underscores_from false at_start (z ∷ [])
underscore_ok (z ∷ c ∷ cs) =
    if z == b'0' && is_prefix_letter c
    then underscores_from (lower c == b'x') at_digit cs
    else underscores_from false at_start (z ∷ c ∷ cs)

abbrev pub has_underscore : Bytes → Bool
has_underscore [] = false
has_underscore (c ∷ cs) = c == b'_' || has_underscore cs

-- `strconv.ParseUint(s, 10, bits)`, where `max` is the largest number of so many bits.
unfoldable pub parse_decimal : ℕ → Bytes → Option ℕ
parse_decimal max [] = none
parse_decimal max (c ∷ cs) = parse_digits false 10 max (c ∷ cs) 0

-- `strconv.ParseUint(s, 0, bits)`
unfoldable pub parse_uint : ℕ → Bytes → Option ℕ
parse_uint max [] = none
parse_uint max (c ∷ cs) =
    let (base, digits) = read_base (c ∷ cs) in
    if has_underscore (c ∷ cs) && not (underscore_ok (c ∷ cs))
    then none
    else parse_digits true base max digits 0

-- The sign, and the range of an int64.
abbrev signed : Bool → Option ℕ → Option ℤ
signed negated none = none
signed false (some n) = if leb i63 n then none else some (pos n)
signed true (some zero) = some (pos zero)
signed true (some (suc n)) = if leb i63 n then none else some (negsuc n)

-- `strconv.ParseInt(s, 0, 64)`
unfoldable pub parse_int : Bytes → Option ℤ
parse_int [] = none
parse_int (c ∷ cs) =
    if c == b'-'
    then signed true (parse_uint u64_max cs)
    else if c == b'+'
    then signed false (parse_uint u64_max cs)
    else signed false (parse_uint u64_max (c ∷ cs))

-- `strconv.Atoi`
unfoldable pub atoi : Bytes → Option ℤ
atoi [] = none
atoi (c ∷ cs) =
    if c == b'-'
    then signed true (parse_decimal u64_max cs)
    else if c == b'+'
    then signed false (parse_decimal u64_max cs)
    else signed false (parse_decimal u64_max (c ∷ cs))

abbrev among : Bytes → List Bytes → Bool
among s [] = false
among s (t ∷ ts) = equal s t || among s ts

abbrev true_words : List Bytes
true_words = codes "1" ∷ codes "t" ∷ codes "T" ∷ codes "TRUE" ∷ codes "true" ∷ codes "True" ∷ []

abbrev false_words : List Bytes
false_words = codes "0" ∷ codes "f" ∷ codes "F" ∷ codes "FALSE" ∷ codes "false" ∷ codes "False" ∷ []

-- `strconv.ParseBool`
unfoldable pub parse_bool : Bytes → Option Bool
parse_bool s =
    if among s true_words then some true else if among s false_words then some false else none
