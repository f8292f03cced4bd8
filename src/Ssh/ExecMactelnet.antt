-- ===== src/Ssh/ExecMactelnet.antt =====
-- src/internal/sshserver/exec.go: execMactelnet, from its arguments to the end of its session. What the
-- client answers to the prompt, whether Open succeeds, the window changes that arrive and how the two
-- copying goroutines end are given.
use mactelnet_proxy.Base.{
  ℕ, ◌%◌, Bool, ◌||◌, if◌then◌else◌, ltb, List, [], ◌∷◌, ◌++◌, Bytes, u16_mod, Option, none, some,
  Result, ok, err, map,
}
use mactelnet_proxy.Text.Strings.{codes, is_empty}
use mactelnet_proxy.Text.Flags.{
  Flags, FlagSet, string_value, uint_value, find, string_of, uint_of, parse,
}
use mactelnet_proxy.Seq.Schedule.{Duration}
use mactelnet_proxy.Session.Open.{OpenRequest, OpenError}
use mactelnet_proxy.Ssh.Channel.{WinChange}
use mactelnet_proxy.Ssh.Prompt.{Reader, Answer, password, failed, read_password_prompt}
use mactelnet_proxy.Ssh.Exec.{
  Config, WaitError, prompt_failed, prompt_timeout, prompt_canceled, Complaint, bad_flags, usage,
  vlan_range, read_password, open_failed, copy_failed, Action, prompted, opened, resized,
  session_closed, Exec, complain, behind,
}

-- Which of its three channels the select of `readPasswordPromptWithTimeout` takes.
pub data Wake : Type 0 where
  answered timer_fired ctx_done : Wake

abbrev result_of : Answer → Result WaitError Bytes
result_of (password p r) = ok p
result_of (failed e) = err (prompt_failed e)

unfoldable pub read_password_prompt_with_timeout : Wake → Bool → Reader → Result WaitError Bytes
read_password_prompt_with_timeout answered wrote r = result_of (read_password_prompt wrote r)
read_password_prompt_with_timeout timer_fired wrote r = err prompt_timeout
read_password_prompt_with_timeout ctx_done wrote r = err prompt_canceled

-- The error of the copy that ends first.
pub data CopyEnd : Type 0 where
  no_error eof net_closed closed_pipe other_error : CopyEnd

-- What the last select sees: the context, or the end of a copy.
pub data Ending : Type 0 where
  canceled : Ending
  copied : CopyEnd → Ending

pub record MactelnetWorld : Type 0 where
  pub wake : Wake
  pub prompt_written : Bool
  pub stdin : Reader
  pub open_result : OpenRequest → Option OpenError
  pub win_changes : List WinChange
  pub ending : Ending

abbrev pub mactelnet_flags : Config → Flags
mactelnet_flags cfg =
    (codes "u", string_value [])
    ∷ (codes "p", string_value [])
    ∷ (codes "i", string_value cfg.iface)
    ∷ (codes "vlan", uint_value cfg.vlan_id)
    ∷ []

-- What the arguments ask for.
pub record Wanted : Type 0 where
  pub user : Bytes
  pub pass : Bytes
  pub iface : Bytes
  pub vlan_id : ℕ
  pub mac : Bytes

abbrev pub wanted : Flags → Bytes → Wanted
wanted fs mac = record {
  user = string_of (find (codes "u") fs);
  pass = string_of (find (codes "p") fs);
  iface = string_of (find (codes "i") fs);
  vlan_id = uint_of (find (codes "vlan") fs);
  mac = mac;
}

-- The tests behind the parse.
unfoldable pub check_wanted : Wanted → Result Complaint Wanted
check_wanted t =
    if is_empty t.user || is_empty t.iface
    then err usage
    else if ltb 4094 t.vlan_id
    then err vlan_range
    else ok t

unfoldable pub check_args : FlagSet → Result Complaint Wanted
check_args fs = elim fs.args [
  | [] ↦ err usage
  | mac ∷ more ↦ elim more [ [] ↦ check_wanted (wanted fs.flags mac) | _ ∷ _ ↦ err usage ]
]

unfoldable pub read_args : (Bytes → Option Duration) → Config → List Bytes → Result Complaint Wanted
read_args parse_duration cfg args = elim (parse parse_duration (mactelnet_flags cfg) args) [
  | err e ↦ err bad_flags
  | ok fs ↦ check_args fs
]

-- The errors that `errors.Is` passes over.
unfoldable pub finish_copy : Ending → Exec
finish_copy canceled = record { code = 0; actions = [] }
finish_copy (copied other_error) = complain 1 copy_failed
finish_copy (copied _) = record { code = 0; actions = [] }

-- `sess.Resize(uint16(w.cols), uint16(w.rows))`
abbrev resize_of : WinChange → Action
resize_of w = resized (w.cols % u16_mod) (w.rows % u16_mod)

-- The session, with the `Close` that is deferred.
unfoldable pub run_session : MactelnetWorld → OpenRequest → Exec
run_session w req = elim (w.open_result req) [
  | some e ↦ behind (opened req ∷ []) (complain 1 (open_failed e))
  | none ↦
      let done = finish_copy w.ending in
      record {
        code = done.code;
        actions =
            opened req ∷ (map resize_of w.win_changes ++ (done.actions ++ session_closed ∷ []));
      }
]

abbrev pub request : Wanted → Bytes → ℕ → ℕ → OpenRequest
request t secret cols rows = record {
  iface = t.iface;
  mac = t.mac;
  username = t.user;
  password = secret;
  cols = cols % u16_mod;
  rows = rows % u16_mod;
  vlan_id = t.vlan_id % u16_mod;
}

-- Without -p the password is read from the channel.
unfoldable pub with_password : MactelnetWorld → Wanted → ℕ → ℕ → Exec
with_password w t cols rows =
    if is_empty t.pass
    then behind (prompted ∷ [])
        (elim (read_password_prompt_with_timeout w.wake w.prompt_written w.stdin) [
          | err e ↦ complain 1 (read_password e)
          | ok secret ↦ run_session w (request t secret cols rows)
        ])
    else run_session w (request t t.pass cols rows)

-- `execMactelnet`; `cols` and `rows` are uint32s.
unfoldable pub exec_mactelnet :
    (Bytes → Option Duration) → Config → MactelnetWorld → List Bytes → ℕ → ℕ → Exec
exec_mactelnet parse_duration cfg w args cols rows = elim (read_args parse_duration cfg args) [
  | err c ↦ complain 2 c
  | ok t ↦ with_password w t cols rows
]
