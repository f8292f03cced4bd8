-- ===== src/Text/Flags.antt =====
-- What the code uses of Go's flag package: a FlagSet with its Parse, and the values of its flags.
-- Every error ends the parse, so what was set before it is of no account.
use mactelnet_proxy.Base.{
  ℕ, Bool, true, false, ◌||◌, if◌then◌else◌, ◌==◌, List, [], ◌∷◌, Bytes, equal, Option, none, some,
  Result, ok, err,
}
use mactelnet_proxy.Text.Strings.{codes}
use mactelnet_proxy.Text.Numbers.{ℤ, pos, u64_max, parse_uint, parse_int, parse_bool}
use mactelnet_proxy.Seq.Schedule.{Duration, nanos}

-- A flag's value, of the kind that its definition chose: `fs.String`, `fs.Bool`, `fs.Int`, `fs.Uint`
-- and `fs.Duration`, on a machine of 64 bits.
pub data Value : Type 0 where
  string_value : Bytes → Value
  bool_value : Bool → Value
  int_value : ℤ → Value
  uint_value : ℕ → Value
  duration_value : Duration → Value

-- The flags by their names, with their values.
abbrev pub Flags : Type 0
Flags = List (Bytes × Value)

unfoldable pub find : Bytes → Flags → Option Value
find name [] = none
find name ((n, v) ∷ fs) = let rest = find name fs in if equal n name then some v else rest

unfoldable pub update : Bytes → Value → Flags → Flags
update name v [] = []
update name v ((n, u) ∷ fs) =
    let rest = update name v fs in if equal n name then (n, v) ∷ fs else (n, u) ∷ rest

abbrev pub string_of : Option Value → Bytes
string_of (some (string_value s)) = s
string_of _ = []

abbrev pub bool_of : Option Value → Bool
bool_of (some (bool_value b)) = b
bool_of _ = false

abbrev pub int_of : Option Value → ℤ
int_of (some (int_value n)) = n
int_of _ = pos 0

abbrev pub uint_of : Option Value → ℕ
uint_of (some (uint_value n)) = n
uint_of _ = 0

abbrev pub duration_of : Option Value → Duration
duration_of (some (duration_value d)) = d
duration_of _ = nanos 0

-- What `flag.Parse` sees in an argument: no flag, "--", "-=..." and its like, or a name, and what
-- stands behind its first '='.
pub data Arg : Type 0 where
  operand end_mark bad_syntax : Arg
  named : Bytes → Option Bytes → Arg

abbrev extend : ℕ → Bytes × Option Bytes → Bytes × Option Bytes
extend c (name, value) = (c ∷ name, value)

unfoldable pub cut_value : Bytes → Bytes × Option Bytes
cut_value [] = ([], none)
cut_value (c ∷ cs) = let rest = cut_value cs in if c == b'=' then ([], some cs) else extend c rest

-- The name behind the dashes; an '=' cannot be its first byte.
unfoldable pub read_name : Bytes → Arg
read_name [] = bad_syntax
read_name (c ∷ cs) =
    let (name, value) = cut_value cs in
    if c == b'-' || c == b'=' then bad_syntax else named (c ∷ name) value

unfoldable pub read_arg : Bytes → Arg
read_arg [] = operand
read_arg (c ∷ []) = operand
read_arg (c ∷ d ∷ []) =
    if c == b'-' then (if d == b'-' then end_mark else read_name (d ∷ [])) else operand
read_arg (c ∷ d ∷ e ∷ cs) =
    if c == b'-'
    then (if d == b'-' then read_name (e ∷ cs) else read_name (d ∷ e ∷ cs))
    else operand

pub data FlagError : Type 0 where
  syntax_error help undefined_flag missing_value bad_value : FlagError

-- A FlagSet after its parse: the values, and `fs.Args()`.
pub record FlagSet : Type 0 where
  pub flags : Flags
  pub args : List Bytes

abbrev pub is_bool : Value → Bool
is_bool (bool_value b) = true
is_bool _ = false

-- What parsing a duration yields is `time.ParseDuration`'s answer, which works with floats.
module _ (parse_duration : Bytes → Option Duration) where
  -- `flag.Value.Set`
  unfoldable pub set_value : Value → Bytes → Option Value
  set_value (string_value old) s = some (string_value s)
  set_value (bool_value old) s = elim (parse_bool s) [ none ↦ none | some b ↦ some (bool_value b) ]
  set_value (int_value old) s = elim (parse_int s) [ none ↦ none | some n ↦ some (int_value n) ]
  set_value (uint_value old) s = elim (parse_uint u64_max s) [
    | none ↦ none
    | some n ↦ some (uint_value n)
  ]
  set_value (duration_value old) s = elim (parse_duration s) [
    | none ↦ none
    | some d ↦ some (duration_value d)
  ]

  unfoldable pub set_flag : Bytes → Value → Bytes → Flags → Result FlagError Flags
  set_flag name old s fs = elim (set_value old s) [
    | none ↦ err bad_value
    | some v ↦ ok (update name v fs)
  ]

  -- What a named argument asks for: its flag is set, or waits for the next argument.
  pub data Named : Type 0 where
    refused : FlagError → Named
    done : Flags → Named
    waits : Value → Named

  abbrev set_done : Result FlagError Flags → Named
  set_done (ok fs) = done fs
  set_done (err e) = refused e

  abbrev value_or : Bytes → Option Bytes → Bytes
  value_or d none = d
  value_or d (some s) = s

  unfoldable pub take_named : Bytes → Option Bytes → Flags → Named
  take_named name value fs = elim (find name fs) [
    | none ↦
        refused
          (if equal name (codes "help") || equal name (codes "h") then help else undefined_flag)
    | some old ↦ elim (is_bool old) [
      | true ↦ set_done (set_flag name old (value_or (codes "true") value) fs)
      | false ↦ elim value [ none ↦ waits old | some s ↦ set_done (set_flag name old s fs) ]
    ]
  ]

  -- `FlagSet.Parse`. The first argument is the flag that waits for its value, with the value it has.
  unfoldable pub parse_loop : Option (Bytes × Value) → Flags → List Bytes → Result FlagError FlagSet
  parse_loop none fs [] = ok (record { flags = fs; args = [] })
  parse_loop (some _) fs [] = err missing_value
  parse_loop (some (name, old)) fs (arg ∷ rest) = elim (set_flag name old arg fs) [
    | err e ↦ err e
    | ok fs' ↦ parse_loop none fs' rest
  ]
  parse_loop none fs (arg ∷ rest) = elim (read_arg arg) [
    | operand ↦ ok (record { flags = fs; args = arg ∷ rest })
    | end_mark ↦ ok (record { flags = fs; args = rest })
    | bad_syntax ↦ err syntax_error
    | named name value ↦ elim (take_named name value fs) [
      | refused e ↦ err e
      | done fs' ↦ parse_loop none fs' rest
      | waits old ↦ parse_loop (some (name, old)) fs rest
    ]
  ]

  unfoldable pub parse : Flags → List Bytes → Result FlagError FlagSet
  parse fs args = parse_loop none fs args
