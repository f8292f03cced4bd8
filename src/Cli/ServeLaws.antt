-- ===== src/Cli/ServeLaws.antt =====
-- Flags and environment of the daemon: runServe of src/cmd/mactelnet-proxy/main.go.
use mactelnet_proxy.Base.{
  ℕ, zero, suc, ◌≤◌, ◌%◌, ◌≡◌, refl, sym, ◌∙◌, arith, inl, inr, Bool, false, ltb, if◌then◌else◌,
  List, [], ◌∷◌, Bytes, equal, u16_mod, Option, none, some, ok, Result-cases, Bool-cases,
}
use mactelnet_proxy.Text.Strings.{codes, is_empty}
use mactelnet_proxy.Text.Numbers.{itoa, itoa_from, parse_decimal}
use mactelnet_proxy.Text.NumbersLaws.{parse_decimal-itoa, itoa-Leads, Leads, leads}
use mactelnet_proxy.Text.Flags.{
  Value, string_value, uint_value, duration_value, Flags, FlagSet, named, is_bool, find, update,
  uint_of, bool_of, duration_of, set_value, read_arg, read_name, cut_value, parse, parse_loop,
}
use mactelnet_proxy.Text.FlagsLaws.{parse_loop-next, set_value-itoa}
use mactelnet_proxy.Seq.Schedule.{Duration, nanos}
use mactelnet_proxy.Ssh.Exec.{Config}
use mactelnet_proxy.Cli.Serve.{
  Env, env_or, env_uint_or, env_duration_or, env_bool_or, serve_flags, start, serve_config,
  check_serve, read_serve, or_fallback, default_keys_dir,
}

-- The environment with one variable set.
abbrev pub set_env : Env → Bytes → Bytes → Env
set_env env name v asked = if equal asked name then v else env asked

-- The settings that a flag or a variable gives.
pub data Setting : Type 0 where
  listen keys_dir authorized_keys host_key interface : Setting
  vlan auth_timeout data_timeout : Setting

abbrev pub variable : Setting → Bytes
variable listen = codes "MACTELNET_PROXY_LISTEN"
variable keys_dir = codes "MACTELNET_PROXY_KEYS_DIR"
variable authorized_keys = codes "MACTELNET_PROXY_AUTHORIZED_KEYS"
variable host_key = codes "MACTELNET_PROXY_HOST_KEY"
variable interface = codes "MACTELNET_PROXY_INTERFACE"
variable vlan = codes "MACTELNET_PROXY_VLAN"
variable auth_timeout = codes "MACTELNET_PROXY_AUTH_TIMEOUT"
variable data_timeout = codes "MACTELNET_PROXY_DATA_TIMEOUT"

abbrev pub dashed : Setting → Bytes
dashed listen = codes "-listen"
dashed keys_dir = codes "-keys-dir"
dashed authorized_keys = codes "-authorized-keys"
dashed host_key = codes "-host-key"
dashed interface = codes "-interface"
dashed vlan = codes "-vlan"
dashed auth_timeout = codes "-auth-timeout"
dashed data_timeout = codes "-data-timeout"

no_empty : {cs : Bytes} → Leads cs → is_empty cs ≡ false
no_empty (leads c cs h k) = refl

module _ (pd : Bytes → Option Duration) (join_path : Bytes → Bytes → Bytes) where
  -- A text that is no empty one; a number of 32 bits in decimal; a duration that is parsed.
  abbrev pub Suits : Setting → Bytes → Type 0
  Suits vlan s = (n : ℕ) × (n ≤ 4_294_967_295) × (s ≡ itoa n)
  Suits auth_timeout s = (is_empty s ≡ false) × (d : Duration) × (pd s ≡ some d)
  Suits data_timeout s = (is_empty s ≡ false) × (d : Duration) × (pd s ≡ some d)
  Suits _ s = is_empty s ≡ false

  -- A flag behind an environment, where that environment with another variable gives the same flags.
  parsed_next :
      (env env' : Env) (arg name s : Bytes) (old new : Value)
      → read_arg arg ≡ named name none
      → find name (serve_flags pd join_path env) ≡ some old
      → is_bool old ≡ false
      → set_value pd old s ≡ some new
      → update name new (serve_flags pd join_path env) ≡ serve_flags pd join_path env'
      → read_serve pd join_path env (arg ∷ s ∷ []) ≡ read_serve pd join_path env' []
  unfolding read_serve parse parse_loop
  parsed_next env env' arg name s old new a f b v e =
      rw
        (
          parse_loop-next pd arg name s old new (serve_flags pd join_path env) [] a f b v,
          read_serve,
          parse,
        )
        (rw e refl)

  -- The value of a variable that is a text.
  same_or : (s fallback : Bytes) → is_empty s ≡ false → (if is_empty s then fallback else s) ≡ s
  same_or s fallback h = rw h refl

  itoa_nonempty : (n : ℕ) → is_empty (itoa n) ≡ false
  unfolding itoa itoa_from
  itoa_nonempty zero = refl
  itoa_nonempty (suc n) = no_empty (itoa-Leads (suc n) (omega arith))

  uint_or :
      (n fallback : ℕ)
      → n ≤ 4_294_967_295
      → (if is_empty (itoa n)
          then fallback
          else or_fallback fallback (parse_decimal 4_294_967_295 (itoa n)))
        ≡ n
  uint_or n fallback h = rw (itoa_nonempty n) (rw (parse_decimal-itoa 4_294_967_295 n h) refl)

  duration_or :
      (s : Bytes) (d fallback : Duration)
      → is_empty s ≡ false
      → pd s ≡ some d
      → (if is_empty s then fallback else or_fallback fallback (pd s)) ≡ d
  duration_or s d fallback h p = rw h (rw p refl)

  duration_set :
      (old d : Duration) (s : Bytes)
      → pd s ≡ some d
      → set_value pd (duration_value old) s ≡ some (duration_value d)
  unfolding set_value
  duration_set old d s p = rw (p, set_value) refl

  -- A flag with a value does what its variable does with the same value, whatever the variable holds:
  -- the flag wins over the environment, and the environment over the default.
  pub read_serve-set_env :
      (k : Setting) (env : Env) (v s : Bytes)
      → Suits k s
      → read_serve pd join_path (set_env env (variable k) v) (dashed k ∷ s ∷ [])
        ≡ read_serve pd join_path (set_env env (variable k) s) []
  unfolding serve_flags find update read_arg read_name cut_value set_value env_or env_uint_or
      env_bool_or env_duration_or
  read_serve-set_env listen env v s h =
      parsed_next _ _ (codes "-listen") (codes "listen") s _ (string_value s) refl refl refl refl
        (rw (same_or s (codes "0.0.0.0:22") h) refl)
  read_serve-set_env keys_dir env v s h =
      parsed_next _ _ (codes "-keys-dir") (codes "keys-dir") s _ (string_value s) refl refl refl
        refl (rw (same_or s default_keys_dir h) refl)
  read_serve-set_env authorized_keys env v s h =
      parsed_next _ _ (codes "-authorized-keys") (codes "authorized-keys") s _ (string_value s) refl
        refl refl refl (rw (same_or s [] h) refl)
  read_serve-set_env host_key env v s h =
      parsed_next _ _ (codes "-host-key") (codes "host-key") s _ (string_value s) refl refl refl
        refl (rw (same_or s [] h) refl)
  read_serve-set_env interface env v s h =
      parsed_next _ _ (codes "-interface") (codes "interface") s _ (string_value s) refl refl refl
        refl (rw (same_or s [] h) refl)
  read_serve-set_env vlan env v s (n, small, e) = rw e (
      parsed_next _ _ (codes "-vlan") (codes "vlan") (itoa n) _ (uint_value n) refl refl refl
        (set_value-itoa pd (env_uint_or (set_env env (variable vlan) v) (variable vlan) 0) n
          (omega arith))
        (rw (uint_or n 0 small) refl))
  read_serve-set_env auth_timeout env v s (h, d, p) =
      parsed_next _ _ (codes "-auth-timeout") (codes "auth-timeout") s _ (duration_value d) refl
        refl refl
        (duration_set
          (env_duration_or pd (set_env env (variable auth_timeout) v) (variable auth_timeout)
            (nanos 10_000_000_000))
          d s p)
        (rw (duration_or s d (nanos 10_000_000_000) h p) refl)
  read_serve-set_env data_timeout env v s (h, d, p) =
      parsed_next _ _ (codes "-data-timeout") (codes "data-timeout") s _ (duration_value d) refl
        refl refl
        (duration_set
          (env_duration_or pd (set_env env (variable data_timeout) v) (variable data_timeout)
            (nanos 0))
          d s p)
        (rw (duration_or s d (nanos 0) h p) refl)

started :
    (pd : Bytes → Option Duration) (join_path : Bytes → Bytes → Bytes) (fs : Flags) {cfg : Config}
    {auth_budget data_budget : Duration} {debug : Bool}
    → check_serve pd join_path fs ≡ start cfg auth_budget data_budget debug
    → (cfg.vlan_id ≡ uint_of (find (codes "vlan") fs)) × (cfg.vlan_id ≤ 4094)
unfolding check_serve serve_config
started pd join_path fs {cfg} {auth_budget} {data_budget} {debug} h =
    elim (Bool-cases (bool_of (find (codes "version") fs))) [
      | inl e ↦ absurd (ground (arith, h, e))
      | inr e ↦ elim (Bool-cases (ltb 4094 (uint_of (find (codes "vlan") fs)))) [
        | inl f ↦ absurd (ground (arith, h, e, f))
        | inr f ↦
            let n = uint_of (find (codes "vlan") fs) in
            let low : n ≤ 4094 = ground (arith, f) in
            let q : start (serve_config pd join_path fs)
                  (duration_of (find (codes "auth-timeout") fs))
                  (duration_of (find (codes "data-timeout") fs)) (bool_of (find (codes "debug") fs))
                ≡ start cfg auth_budget data_budget debug =
              sym (rw (e, check_serve) (rw f refl)) ∙ h in
            let c : serve_config pd join_path fs ≡ cfg = cc in
            let same : n % u16_mod ≡ n = omega (arith, low) in
            rw (← c) (same, omega (arith, same, low))
      ]
    ]

-- The daemon starts only with a VLAN of at most 4094, which is the one that was asked for.
pub read_serve-start :
    (pd : Bytes → Option Duration) (join_path : Bytes → Bytes → Bytes) (env : Env)
    (args : List Bytes) {cfg : Config} {auth_budget data_budget : Duration} {debug : Bool}
    → read_serve pd join_path env args ≡ start cfg auth_budget data_budget debug
    → (fs : FlagSet) × (parse pd (serve_flags pd join_path env) args ≡ ok fs)
      × (cfg.vlan_id ≡ uint_of (find (codes "vlan") fs.flags))
      × (cfg.vlan_id ≤ 4094)
unfolding read_serve
read_serve-start pd join_path env args {cfg = cfg} h =
    elim (Result-cases (parse pd (serve_flags pd join_path env) args)) [
      | inr (x, e) ↦ absurd (ground (arith, h, e))
      | inl (fs, e) ↦
          let same = started pd join_path fs.flags (sym (rw (e, read_serve) refl) ∙ h) in
          (fs, e, same.0, same.1)
    ]
