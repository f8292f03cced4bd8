-- ===== src/Cli/Serve.antt =====
-- src/cmd/mactelnet-proxy/main.go: the choice of the subcommand, the fallbacks to the environment and
-- runServe. How the server's New and Serve end is given.
use mactelnet_proxy.Base.{
  ℕ, ◌%◌, Bool, false, not, ◌||◌, if◌then◌else◌, ltb, ◌==◌, List, [], ◌∷◌, Bytes, equal, u16_mod,
  Option, none, some, ok, err,
}
use mactelnet_proxy.Text.Strings.{codes, is_empty, to_lower}
use mactelnet_proxy.Text.Numbers.{parse_decimal}
use mactelnet_proxy.Text.Flags.{
  Flags, string_value, bool_value, uint_value, duration_value, find, string_of, bool_of, uint_of,
  duration_of, parse,
}
use mactelnet_proxy.Seq.Schedule.{Duration, nanos, Schedules, configure}
use mactelnet_proxy.Ssh.Exec.{Config}

-- What `main` runs.
pub data Subcommand : Type 0 where
  serve mactelnet mndp : List Bytes → Subcommand
  print_version print_usage : Subcommand
  unknown_subcommand : Bytes → Subcommand

abbrev starts_with_dash : Bytes → Bool
starts_with_dash [] = false
starts_with_dash (c ∷ cs) = c == b'-'

unfoldable pub subcommand_of : Bytes → List Bytes → Subcommand
subcommand_of sub args =
    if is_empty sub || equal sub (codes "serve")
    then serve args
    else if equal sub (codes "mactelnet")
    then mactelnet args
    else if equal sub (codes "mndp")
    then mndp args
    else if equal sub (codes "version")
    then print_version
    else if equal sub (codes "help") || equal sub (codes "-h") || equal sub (codes "--help")
    then print_usage
    else unknown_subcommand sub

-- `main`, up to the call of the subcommand; `args` is `os.Args[1:]`.
unfoldable pub choose_subcommand : List Bytes → Subcommand
choose_subcommand [] = subcommand_of [] []
choose_subcommand (arg ∷ args) =
    if starts_with_dash arg then subcommand_of [] (arg ∷ args) else subcommand_of arg args

-- The exit code of `main`, given those of the subcommands.
unfoldable pub main : (Subcommand → ℕ) → List Bytes → ℕ
main run args = elim (choose_subcommand args) [
  | serve rest ↦ run (serve rest)
  | mactelnet rest ↦ run (mactelnet rest)
  | mndp rest ↦ run (mndp rest)
  | print_version ↦ 0
  | print_usage ↦ 0
  | unknown_subcommand sub ↦ 2
]

-- `os.Getenv`: empty where the variable is not set.
abbrev pub Env : Type 0
Env = Bytes → Bytes

-- `envOr`
unfoldable pub env_or : Env → Bytes → Bytes → Bytes
env_or env name fallback = let v = env name in if is_empty v then fallback else v

abbrev pub or_fallback {ℓ} : {A : Type ℓ} → A → Option A → A
or_fallback fallback none = fallback
or_fallback fallback (some a) = a

-- `envDurationOr`
unfoldable pub env_duration_or : (Bytes → Option Duration) → Env → Bytes → Duration → Duration
env_duration_or parse_duration env name fallback =
    let v = env name in if is_empty v then fallback else or_fallback fallback (parse_duration v)

-- `envUintOr`
unfoldable pub env_uint_or : Env → Bytes → ℕ → ℕ
env_uint_or env name fallback =
    let v = env name in
    if is_empty v then fallback else or_fallback fallback (parse_decimal 4_294_967_295 v)

-- `envBoolOr`
unfoldable pub env_bool_or : Env → Bytes → Bool → Bool
env_bool_or env name fallback =
    let v = env name in
    let l = to_lower v in
    if is_empty v
    then fallback
    else not (
        equal l (codes "0")
        || equal l (codes "false")
        || equal l (codes "no")
        || equal l (codes "off"))

abbrev pub default_keys_dir : Bytes
default_keys_dir = codes "/etc/mactelnet-proxy"

abbrev pub default_host_key_name : Bytes
default_host_key_name = codes "mactel_ed25519_key"

abbrev pub default_authorized_keys_name : Bytes
default_authorized_keys_name = codes "authorized_keys"

module _ (parse_duration : Bytes → Option Duration) (join_path : Bytes → Bytes → Bytes) where
  -- The flags of `serve`, with their defaults from the environment.
  unfoldable pub serve_flags : Env → Flags
  serve_flags env =
      (
        codes "listen",
        string_value (env_or env (codes "MACTELNET_PROXY_LISTEN") (codes "0.0.0.0:22")),
      )
      ∷ (
        codes "keys-dir",
        string_value (env_or env (codes "MACTELNET_PROXY_KEYS_DIR") default_keys_dir),
      )
      ∷ (
        codes "authorized-keys",
        string_value (env_or env (codes "MACTELNET_PROXY_AUTHORIZED_KEYS") []),
      )
      ∷ (codes "host-key", string_value (env_or env (codes "MACTELNET_PROXY_HOST_KEY") []))
      ∷ (codes "interface", string_value (env_or env (codes "MACTELNET_PROXY_INTERFACE") []))
      ∷ (codes "vlan", uint_value (env_uint_or env (codes "MACTELNET_PROXY_VLAN") 0))
      ∷ (
        codes "auth-timeout",
        duration_value (
            env_duration_or parse_duration env (codes "MACTELNET_PROXY_AUTH_TIMEOUT")
              (nanos 10_000_000_000)),
      )
      ∷ (
        codes "data-timeout",
        duration_value
            (env_duration_or parse_duration env (codes "MACTELNET_PROXY_DATA_TIMEOUT") (nanos 0)),
      )
      ∷ (codes "debug", bool_value (env_bool_or env (codes "MACTELNET_PROXY_DEBUG") false))
      ∷ (codes "version", bool_value false)
      ∷ []

  -- What the flags of `serve` come to.
  pub data ServeAction : Type 0 where
    flags_failed : ServeAction
    show_version : ServeAction
    vlan_refused : ServeAction
    start : Config → Duration → Duration → Bool → ServeAction

  -- `filepath.Join(*keysDir, name)` where no path is given.
  abbrev path_or : Bytes → Bytes → Bytes → Bytes
  path_or path dir name = if is_empty path then join_path dir name else path

  unfoldable pub serve_config : Flags → Config
  serve_config fs =
      let dir = string_of (find (codes "keys-dir") fs) in
      record {
        listen_addr = string_of (find (codes "listen") fs);
        host_key_path = path_or (string_of (find (codes "host-key") fs)) dir default_host_key_name;
        authorized_keys =
            path_or (string_of (find (codes "authorized-keys") fs)) dir
              default_authorized_keys_name;
        iface = string_of (find (codes "interface") fs);
        vlan_id = uint_of (find (codes "vlan") fs) % u16_mod;
      }

  unfoldable pub check_serve : Flags → ServeAction
  check_serve fs =
      if bool_of (find (codes "version") fs)
      then show_version
      else if ltb 4094 (uint_of (find (codes "vlan") fs))
      then vlan_refused
      else start (serve_config fs) (duration_of (find (codes "auth-timeout") fs))
          (duration_of (find (codes "data-timeout") fs)) (bool_of (find (codes "debug") fs))

  unfoldable pub read_serve : Env → List Bytes → ServeAction
  read_serve env args = elim (parse parse_duration (serve_flags env) args) [
    | err e ↦ flags_failed
    | ok fs ↦ check_serve fs.flags
  ]

  -- `runServe`: its exit code, given how New and Serve end under a configuration and its schedules. A
  -- schedule whose sum overflows is never finished.
  unfoldable pub serve_code : (Config → Schedules → Bool) → ServeAction → Option ℕ
  serve_code serves flags_failed = some 2
  serve_code serves show_version = some 0
  serve_code serves vlan_refused = some 2
  serve_code serves (start cfg auth_timeout data_timeout debug) =
      elim (configure auth_timeout data_timeout) [
        | none ↦ none
        | some sch ↦ some (if serves cfg sch then 0 else 1)
      ]

  unfoldable pub run_serve : (Config → Schedules → Bool) → Env → List Bytes → Option ℕ
  run_serve serves env args = serve_code serves (read_serve env args)
