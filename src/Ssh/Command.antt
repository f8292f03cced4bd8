-- ===== src/Ssh/Command.antt =====
-- src/internal/sshserver/exec.go: splitCmd over the runes of a command, and the choice of the engine.
use mactelnet_proxy.Base.{
  ℕ, Bool, true, false, not, ◌||◌, if◌then◌else◌, ◌==◌, List, [], ◌∷◌, ◌++◌, Bytes, equal, Result,
  ok, err,
}
use mactelnet_proxy.Text.Strings.{is_space}

-- The variables of the loop; `quote_ch` is 0 outside a quoted run.
pub record Split : Type 0 where
  pub args : List Bytes
  pub cur : Bytes
  pub quote_ch : ℕ
  pub has_content : Bool

abbrev pub split_start : Split
split_start = record { args = []; cur = []; quote_ch = 0; has_content = false }

unfoldable pub is_quote : ℕ → Bool
is_quote r = r == b'"' || r == 39

-- One round of the loop.
unfoldable pub split_rune : ℕ → Split → Split
split_rune r s =
    if not (s.quote_ch == 0)
    then (if r == s.quote_ch
        then record s { quote_ch = 0; has_content = true }
        else record s { cur = s.cur ++ r ∷ []; has_content = true })
    else if is_quote r
    then record s { quote_ch = r; has_content = true }
    else if is_space r
    then (if s.has_content
        then record s { args = s.args ++ s.cur ∷ []; cur = []; has_content = false }
        else s)
    else record s { cur = s.cur ++ r ∷ []; has_content = true }

unfoldable pub split_runes : Bytes → Split → Split
split_runes [] s = s
split_runes (r ∷ rs) s = split_runes rs (split_rune r s)

pub data SplitError : Type 0 where
  unclosed_quote : SplitError

-- What follows the loop.
unfoldable pub split_end : Split → Result SplitError (List Bytes)
split_end s =
    if not (s.quote_ch == 0)
    then err unclosed_quote
    else ok (if s.has_content then s.args ++ s.cur ∷ [] else s.args)

-- `splitCmd`
unfoldable pub split_cmd : Bytes → Result SplitError (List Bytes)
split_cmd s = split_end (split_runes s split_start)

-- What `dispatchExec` does with the command.
pub data Dispatch : Type 0 where
  run_mactelnet run_mndp run_ifaces : List Bytes → Dispatch
  bad_command empty_command : Dispatch
  unknown_command : Bytes → Dispatch

abbrev pub cmd_mactelnet : Bytes
cmd_mactelnet = b'm' ∷ b'a' ∷ b'c' ∷ b't' ∷ b'e' ∷ b'l' ∷ b'n' ∷ b'e' ∷ b't' ∷ []

abbrev pub cmd_mndp : Bytes
cmd_mndp = b'm' ∷ b'n' ∷ b'd' ∷ b'p' ∷ []

abbrev pub cmd_ifaces : Bytes
cmd_ifaces = b'i' ∷ b'f' ∷ b'a' ∷ b'c' ∷ b'e' ∷ b's' ∷ []

unfoldable pub choose : List Bytes → Dispatch
choose [] = empty_command
choose (name ∷ args) =
    if equal name cmd_mactelnet
    then run_mactelnet args
    else if equal name cmd_mndp
    then run_mndp args
    else if equal name cmd_ifaces
    then run_ifaces args
    else unknown_command name

unfoldable pub dispatch : Bytes → Dispatch
dispatch cmdline = elim (split_cmd cmdline) [ err e ↦ bad_command | ok args ↦ choose args ]
