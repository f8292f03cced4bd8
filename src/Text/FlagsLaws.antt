-- ===== src/Text/FlagsLaws.antt =====
-- Flags on a command line: one behind the other, each with its value in the next argument.
use mactelnet_proxy.Base.{ℕ, ◌≤◌, ◌≡◌, refl, false, List, ◌∷◌, Bytes, Option, none, some, ok}
use mactelnet_proxy.Text.Flags.{
  Value, uint_value, Flags, find, update, operand, named, read_arg, is_bool, set_value, set_flag,
  take_named, waits, parse_loop,
}
use mactelnet_proxy.Text.Numbers.{itoa, u64_max}
use mactelnet_proxy.Text.NumbersLaws.{parse_uint-itoa}
use mactelnet_proxy.Seq.Schedule.{Duration}

module _ (pd : Bytes → Option Duration) where
  take_named-waits :
      (name : Bytes) (old : Value) (fs : Flags)
      → find name fs ≡ some old
      → is_bool old ≡ false
      → take_named pd name none fs ≡ waits old
  unfolding take_named
  take_named-waits name old fs f b = rw (f, take_named) (rw b refl)

  set_flag-update :
      (name s : Bytes) (old new : Value) (fs : Flags)
      → set_value pd old s ≡ some new
      → set_flag pd name old s fs ≡ ok (update name new fs)
  unfolding set_flag
  set_flag-update name s old new fs v = rw (v, set_flag) refl

  parse_loop_set :
      (name s : Bytes) (old : Value) (fs fs' : Flags) (rest : List Bytes)
      → set_flag pd name old s fs ≡ ok fs'
      → parse_loop pd (some (name, old)) fs (s ∷ rest) ≡ parse_loop pd none fs' rest
  unfolding parse_loop
  parse_loop_set name s old fs fs' rest v = rw (v, parse_loop) refl

  -- A flag that is no switch takes the next argument, whatever it looks like.
  pub parse_loop-next :
      (arg name s : Bytes) (old new : Value) (fs : Flags) (rest : List Bytes)
      → read_arg arg ≡ named name none
      → find name fs ≡ some old
      → is_bool old ≡ false
      → set_value pd old s ≡ some new
      → parse_loop pd none fs (arg ∷ s ∷ rest) ≡ parse_loop pd none (update name new fs) rest
  unfolding parse_loop
  parse_loop-next arg name s old new fs rest a f b v =
      rw (a, parse_loop)
        (rw (take_named-waits name old fs f b) (
          parse_loop_set name s old fs (update name new fs) rest
            (set_flag-update name s old new fs v)))

  -- The first argument that is no flag ends the parse.
  pub parse_loop-operand :
      (arg : Bytes) (fs : Flags) (rest : List Bytes)
      → read_arg arg ≡ operand
      → parse_loop pd none fs (arg ∷ rest) ≡ ok (record { flags = fs; args = arg ∷ rest })
  unfolding parse_loop
  parse_loop-operand arg fs rest a = rw (a, parse_loop) refl

  -- A number in decimal is a uint flag's value.
  pub set_value-itoa :
      (old n : ℕ) → n ≤ u64_max → set_value pd (uint_value old) (itoa n) ≡ some (uint_value n)
  unfolding set_value
  set_value-itoa old n h = rw (parse_uint-itoa u64_max n h, set_value) refl
