-- ===== src/Cli/Examples.antt =====
-- Runs of the daemon's command line: src/cmd/mactelnet-proxy.
use mactelnet_proxy.Base.{
  ◌≤◌, ◌≡◌, refl, arith, false, [], ◌∷◌, ◌++◌, Bytes, Option, none, some, ok,
}
use mactelnet_proxy.Text.Strings.{codes, lower, to_lower}
use mactelnet_proxy.Text.Numbers.{
  itoa, itoa_from, parse_decimal, parse_digits, push_digit, digit_value, parse_uint, read_base,
}
use mactelnet_proxy.Text.Flags.{
  FlagSet, find, uint_of, parse, parse_loop, read_arg, read_name, cut_value, take_named, set_flag,
  set_value, update,
}
use mactelnet_proxy.Seq.Schedule.{Duration, nanos, negative}
use mactelnet_proxy.Ssh.Exec.{Config}
use mactelnet_proxy.Ssh.ExecMndp.{MndpWorld, seconds_window, exec_mndp}
use mactelnet_proxy.Cli.Serve.{
  Env, start, serve_flags, read_serve, check_serve, serve_config, env_or, env_uint_or,
  env_duration_or, env_bool_or, choose_subcommand, subcommand_of, serve,
}
use mactelnet_proxy.Cli.ServeLaws.{set_env, vlan, read_serve-set_env, read_serve-start}
use mactelnet_proxy.Cli.Mndp.{run_mndp}
use mactelnet_proxy.Cli.MndpLaws.{SameRun, exec_mndp-run_mndp}

abbrev durations : Bytes → Option Duration
durations s = none

abbrev join_path : Bytes → Bytes → Bytes
join_path dir name = dir ++ (b'/' ∷ name)

abbrev empty_env : Env
empty_env name = []

read_serve-set_env_example :
    read_serve durations join_path
      (set_env empty_env (codes "MACTELNET_PROXY_VLAN") (codes "junk"))
      (codes "-vlan" ∷ codes "100" ∷ [])
    ≡ read_serve durations join_path
        (set_env empty_env (codes "MACTELNET_PROXY_VLAN") (codes "100"))
        []
unfolding itoa itoa_from
read_serve-set_env_example =
    read_serve-set_env durations join_path vlan empty_env (codes "junk") (codes "100")
      (100, omega arith, refl)

abbrev config : Config
config = record {
  listen_addr = codes "0.0.0.0:22";
  host_key_path = codes "/etc/mactelnet-proxy/mactel_ed25519_key";
  authorized_keys = codes "/etc/mactelnet-proxy/authorized_keys";
  iface = [];
  vlan_id = 8;
}

-- As a flag, 010 is octal.
octal_flag_test :
    read_serve durations join_path empty_env (codes "-vlan" ∷ codes "010" ∷ [])
    ≡ start config (nanos 10_000_000_000) (nanos 0) false
unfolding read_serve parse parse_loop read_arg read_name cut_value take_named set_flag set_value
    update find parse_uint read_base parse_digits push_digit digit_value lower serve_flags env_or
    env_uint_or env_duration_or env_bool_or to_lower check_serve serve_config
octal_flag_test = refl

-- In the environment it is decimal.
decimal_env_test : env_uint_or (λ name. codes "010") [] 0 ≡ 10
unfolding env_uint_or parse_decimal parse_digits push_digit digit_value
decimal_env_test = refl

read_serve-start_test :
    (fs : FlagSet) × (parse durations
        (serve_flags durations join_path empty_env)
        (codes "-vlan" ∷ codes "010" ∷ [])
      ≡ ok fs)
    × (8 ≡ uint_of (find (codes "vlan") fs.flags))
    × (8 ≤ 4094)
read_serve-start_test =
    read_serve-start durations join_path empty_env (codes "-vlan" ∷ codes "010" ∷ []) {cfg = config}
      octal_flag_test

abbrev silent : MndpWorld
silent = record { hears = λ iface window. some []; json = λ ns. some (codes "[]") }

exec_mndp-run_mndp_example :
    SameRun
      (exec_mndp durations config silent (codes "-j" ∷ codes "-t" ∷ codes "3" ∷ []))
      (run_mndp durations silent (codes "-j" ∷ codes "-t" ∷ codes "3" ∷ []))
exec_mndp-run_mndp_example =
    exec_mndp-run_mndp durations config silent (codes "-j" ∷ codes "-t" ∷ codes "3" ∷ []) refl

-- A window beyond 292 years is one that is over.
window_overflow_test : seconds_window 9_223_372_037 ≡ negative 9_223_372_036_709_551_616
unfolding seconds_window
window_overflow_test = refl

-- -h is a flag of serve, not the daemon's help.
help_flag_test : choose_subcommand (codes "-h" ∷ []) ≡ serve (codes "-h" ∷ [])
unfolding choose_subcommand subcommand_of
help_flag_test = refl
