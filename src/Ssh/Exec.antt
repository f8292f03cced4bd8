-- ===== src/Ssh/Exec.antt =====
-- src/internal/sshserver/server.go and exec.go: what the three engines share: the configuration, what they
-- do to the channel and to a session, and their exit codes.
use mactelnet_proxy.Base.{ℕ, List, [], ◌∷◌, ◌++◌, Bytes}
use mactelnet_proxy.Session.Open.{OpenRequest, OpenError}
use mactelnet_proxy.Ssh.Prompt.{PromptError}

-- `Config`, without its logger.
pub record Config : Type 0 where
  pub listen_addr : Bytes
  pub host_key_path : Bytes
  pub authorized_keys : Bytes
  pub iface : Bytes
  pub vlan_id : ℕ

pub data WaitError : Type 0 where
  prompt_failed : PromptError → WaitError
  prompt_timeout prompt_canceled : WaitError

-- The messages on stderr.
pub data Complaint : Type 0 where
  bad_flags usage vlan_range timeout_positive : Complaint
  read_password : WaitError → Complaint
  open_failed : OpenError → Complaint
  copy_failed discover_failed enumerate_failed encode_failed : Complaint
  iface_not_found : Bytes → Complaint
  bad_command empty_command : Complaint
  unknown_command : Bytes → Complaint
  searching : Complaint

-- What an engine does, in order; `printed` is text on stdout, and JSON is the text that the encoder made.
pub data Action : Type 0 where
  complained : Complaint → Action
  printed : Bytes → Action
  prompted : Action
  opened : OpenRequest → Action
  resized : ℕ → ℕ → Action
  session_closed : Action

pub record Exec : Type 0 where
  pub code : ℕ
  pub actions : List Action

abbrev pub complain : ℕ → Complaint → Exec
complain code c = record { code = code; actions = complained c ∷ [] }

-- Actions before what follows.
abbrev pub behind : List Action → Exec → Exec
behind before e = record { code = e.code; actions = before ++ e.actions }
