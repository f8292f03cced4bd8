-- ===== src/Cli/Mactelnet.antt =====
-- src/cmd/mactelnet-proxy/mactelnet.go: runMactelnet. Whether Open succeeds, the terminal's size and how the
-- copies end are given.
use mactelnet_proxy.Base.{
  ℕ, ◌%◌, ◌||◌, if◌then◌else◌, ltb, List, [], ◌∷◌, ◌++◌, Bytes, u16_mod, Option, none, some, Result,
  ok, err, map,
}
use mactelnet_proxy.Text.Strings.{codes, is_empty}
use mactelnet_proxy.Text.Flags.{
  Flags, FlagSet, string_value, uint_value, find, string_of, uint_of, parse,
}
use mactelnet_proxy.Seq.Schedule.{Duration}
use mactelnet_proxy.Session.Open.{OpenRequest, OpenError}
use mactelnet_proxy.Ssh.ExecMactelnet.{Wanted, Ending, canceled, copied, other_error}
use mactelnet_proxy.Cli.Serve.{Env}

abbrev pub mactelnet_flags : Flags
mactelnet_flags =
    (codes "u", string_value [])
    ∷ (codes "i", string_value [])
    ∷ (codes "p", string_value [])
    ∷ (codes "vlan", uint_value 0)
    ∷ []

-- The messages on stderr.
pub data Message : Type 0 where
  bad_flags usage vlan_range password_required copy_failed connection_closed : Message
  open_failed : OpenError → Message

pub data Step : Type 0 where
  wrote : Message → Step
  opened : OpenRequest → Step
  resized : ℕ → ℕ → Step
  session_closed : Step

pub record Run : Type 0 where
  pub code : ℕ
  pub steps : List Step

-- `terminal` is the answer of the ioctl, and `later` the sizes that SIGWINCH brings.
pub record CliWorld : Type 0 where
  pub env : Env
  pub terminal : Option (ℕ × ℕ)
  pub later : List (Option (ℕ × ℕ))
  pub open_result : OpenRequest → Option OpenError
  pub ending : Ending

-- `getTermSize`
unfoldable pub get_term_size : Option (ℕ × ℕ) → ℕ × ℕ
get_term_size none = (0, 0)
get_term_size (some size) = size

abbrev pub stop : ℕ → Message → Run
stop code m = record { code = code; steps = wrote m ∷ [] }

unfoldable pub check_wanted : Wanted → Result Message Wanted
check_wanted t =
    if is_empty t.user || is_empty t.iface
    then err usage
    else if ltb 4094 t.vlan_id
    then err vlan_range
    else ok t

abbrev pub wanted : Flags → Bytes → Wanted
wanted fs mac = record {
  user = string_of (find (codes "u") fs);
  pass = string_of (find (codes "p") fs);
  iface = string_of (find (codes "i") fs);
  vlan_id = uint_of (find (codes "vlan") fs);
  mac = mac;
}

unfoldable pub check_args : FlagSet → Result Message Wanted
check_args fs = elim fs.args [
  | [] ↦ err usage
  | mac ∷ more ↦ elim more [ [] ↦ check_wanted (wanted fs.flags mac) | _ ∷ _ ↦ err usage ]
]

-- The password from the environment where -p gives none.
unfoldable pub password_of : Env → Wanted → Result Message Bytes
password_of env t =
    let given = if is_empty t.pass then env (codes "MACTELNET_PASSWORD") else t.pass in
    if is_empty given then err password_required else ok given

unfoldable pub finish : Ending → Run
finish canceled = record { code = 0; steps = [] }
finish (copied other_error) = stop 1 copy_failed
finish (copied _) = stop 0 connection_closed

abbrev resize_step : Option (ℕ × ℕ) → Step
resize_step o = let (c, r) = get_term_size o in resized c r

unfoldable pub run_session : CliWorld → OpenRequest → Run
run_session w req = elim (w.open_result req) [
  | some e ↦ record { code = 1; steps = opened req ∷ wrote (open_failed e) ∷ [] }
  | none ↦
      let done = finish w.ending in
      record {
        code = done.code;
        steps = opened req ∷ (map resize_step w.later ++ (done.steps ++ session_closed ∷ []));
      }
]

unfoldable pub request : CliWorld → Wanted → Bytes → OpenRequest
request w t secret =
    let (cols, rows) = get_term_size w.terminal in
    record {
      iface = t.iface;
      mac = t.mac;
      username = t.user;
      password = secret;
      cols = cols;
      rows = rows;
      vlan_id = t.vlan_id % u16_mod;
    }

unfoldable pub start : CliWorld → Wanted → Run
start w t = elim (password_of w.env t) [
  | err m ↦ stop 2 m
  | ok secret ↦ run_session w (request w t secret)
]

unfoldable pub run_mactelnet_flags : CliWorld → FlagSet → Run
run_mactelnet_flags w fs = elim (check_args fs) [ err m ↦ stop 2 m | ok t ↦ start w t ]

-- `runMactelnet`
unfoldable pub run_mactelnet : (Bytes → Option Duration) → CliWorld → List Bytes → Run
run_mactelnet parse_duration w args = elim (parse parse_duration mactelnet_flags args) [
  | err e ↦ stop 2 bad_flags
  | ok fs ↦ run_mactelnet_flags w fs
]
