-- ===== src/Ssh/ExecMactelnetLaws.antt =====
-- What execMactelnet of src/internal/sshserver/exec.go opens, and with which arguments.
use mactelnet_proxy.Base.{
  ℕ, ◌≤◌, ◌%◌, ◌≡◌, inl, inr, refl, sym, ◌∙◌, arith, false, ltb, List, [], ◌∷◌, Bytes, u16_mod,
  Option, ok, Result-cases, Bool-cases,
}
use mactelnet_proxy.Text.Strings.{codes, is_empty}
use mactelnet_proxy.Text.Numbers.{itoa}
use mactelnet_proxy.Text.Flags.{
  Flags, string_value, uint_value, find, parse, read_arg, operand, update, set_value, read_name,
  cut_value,
}
use mactelnet_proxy.Text.FlagsLaws.{parse_loop-next, parse_loop-operand, set_value-itoa}
use mactelnet_proxy.Seq.Schedule.{Duration}
use mactelnet_proxy.Session.Open.{OpenRequest}
use mactelnet_proxy.Ssh.Exec.{
  Config, Complaint, prompted, Exec, complain, behind, WaitError, read_password,
}
use mactelnet_proxy.Ssh.ExecMactelnet.{
  MactelnetWorld, Wanted, mactelnet_flags, wanted, check_wanted, check_args, read_args, run_session,
  request, read_password_prompt_with_timeout, with_password, exec_mactelnet,
}

-- The arguments that name everything.
abbrev pub full_args : Bytes → Bytes → Bytes → ℕ → Bytes → List Bytes
full_args user pass iface vlan_id mac =
    codes "-u"
    ∷ user
    ∷ codes "-p"
    ∷ pass
    ∷ codes "-i"
    ∷ iface
    ∷ codes "-vlan"
    ∷ itoa vlan_id
    ∷ mac
    ∷ []

abbrev full_flags : Bytes → Bytes → Bytes → ℕ → Flags
full_flags user pass iface vlan_id =
    (codes "u", string_value user)
    ∷ (codes "p", string_value pass)
    ∷ (codes "i", string_value iface)
    ∷ (codes "vlan", uint_value vlan_id)
    ∷ []

parse_full :
    (pd : Bytes → Option Duration) (cfg : Config) (user pass iface : Bytes) (vlan_id : ℕ)
    (mac : Bytes)
    → vlan_id ≤ 4094
    → read_arg mac ≡ operand
    → parse pd (mactelnet_flags cfg) (full_args user pass iface vlan_id mac)
      ≡ ok (record { flags = full_flags user pass iface vlan_id; args = mac ∷ [] })
unfolding parse find update set_value read_arg read_name cut_value
parse_full pd cfg user pass iface vlan_id mac h m =
    parse_loop-next pd (codes "-u") (codes "u") user _ (string_value user) _ _ refl refl refl refl
    ∙ parse_loop-next pd (codes "-p") (codes "p") pass _ (string_value pass) _ _ refl refl refl refl
    ∙ parse_loop-next pd (codes "-i") (codes "i") iface _ (string_value iface) _ _ refl refl refl
        refl
    ∙ parse_loop-next pd (codes "-vlan") (codes "vlan") (itoa vlan_id) _ (uint_value vlan_id) _ _
        refl refl refl (set_value-itoa pd cfg.vlan_id vlan_id (omega arith))
    ∙ parse_loop-operand pd mac _ [] m

-- What it takes to have a session opened.
pub record IsChecked (req : OpenRequest) : Type 0 where
  pub user_given : is_empty req.username ≡ false
  pub iface_given : is_empty req.iface ≡ false
  pub vlan_in_range : req.vlan_id ≤ 4094

-- The arguments are refused, the password is not read, or a session runs.
pub data Outcome (w : MactelnetWorld) (e : Exec) : Type 0 where
  refused : (c : Complaint) → e ≡ complain 2 c → Outcome w e
  no_password :
      (why : WaitError) → e ≡ behind (prompted ∷ []) (complain 1 (read_password why)) → Outcome w e
  ran : (req : OpenRequest) → IsChecked req → e ≡ run_session w req → Outcome w e
  ran_prompted :
      (req : OpenRequest)
      → IsChecked req
      → e ≡ behind (prompted ∷ []) (run_session w req)
      → Outcome w e

-- What the tests of the arguments let through.
pub record IsAccepted (t : Wanted) : Type 0 where
  pub user_given : is_empty t.user ≡ false
  pub iface_given : is_empty t.iface ≡ false
  pub vlan_in_range : t.vlan_id ≤ 4094

check_wanted-IsAccepted : (t : Wanted) {t' : Wanted} → check_wanted t ≡ ok t' → IsAccepted t'
unfolding check_wanted
check_wanted-IsAccepted t {t' = t'} h = elim (Bool-cases (is_empty t.user)) [
  | inl u ↦ absurd (ground (arith, h, u))
  | inr u ↦ elim (Bool-cases (is_empty t.iface)) [
    | inl i ↦ absurd (ground (arith, h, u, i))
    | inr i ↦ elim (Bool-cases (ltb 4094 t.vlan_id)) [
      | inl v ↦ absurd (ground (arith, h, u, i, v))
      | inr v ↦
          let e : t ≡ t' = ground (arith, h, u, i, v) in
          rw (← e) (record { user_given = u; iface_given = i; vlan_in_range = ground (arith, v) })
    ]
  ]
]

check_args-IsAccepted :
    (fs : Flags) (args : List Bytes) {t : Wanted}
    → check_args (record { flags = fs; args = args }) ≡ ok t
    → IsAccepted t
unfolding check_args
check_args-IsAccepted fs [] h = absurd cc
check_args-IsAccepted fs (mac ∷ []) h = check_wanted-IsAccepted (wanted fs mac) h
check_args-IsAccepted fs (mac ∷ _ ∷ _) h = absurd cc

read_args-IsAccepted :
    (pd : Bytes → Option Duration) (cfg : Config) (args : List Bytes) {t : Wanted}
    → read_args pd cfg args ≡ ok t
    → IsAccepted t
unfolding read_args
read_args-IsAccepted pd cfg args h = elim (Result-cases (parse pd (mactelnet_flags cfg) args)) [
  | inl (fs, e) ↦ check_args-IsAccepted fs.flags fs.args (sym (rw (e, read_args) refl) ∙ h)
  | inr (x, e) ↦ absurd (ground (arith, h, e))
]

request-IsChecked :
    (t : Wanted) (secret : Bytes) (cols rows : ℕ)
    → IsAccepted t
    → IsChecked (request t secret cols rows)
request-IsChecked t secret cols rows a = record {
  user_given = a.user_given;
  iface_given = a.iface_given;
  vlan_in_range = let h = a.vlan_in_range in omega arith;
}

with_password-Outcome :
    (w : MactelnetWorld) (t : Wanted) (cols rows : ℕ)
    → IsAccepted t
    → Outcome w (with_password w t cols rows)
unfolding with_password
with_password-Outcome w t cols rows a = elim (Bool-cases (is_empty t.pass)) [
  | inr given ↦
      ran (request t t.pass cols rows) (request-IsChecked t t.pass cols rows a)
        (rw (given, with_password) refl)
  | inl empty ↦
      elim (Result-cases (read_password_prompt_with_timeout w.wake w.prompt_written w.stdin)) [
        | inl (secret, e) ↦
            ran_prompted (request t secret cols rows) (request-IsChecked t secret cols rows a)
              (rw (empty, with_password) (rw e refl))
        | inr (why, e) ↦ no_password why (rw (empty, with_password) (rw e refl))
      ]
]

-- However its arguments, the prompt, Open and the copies go, execMactelnet ends in one of four ways: with
-- exit code 2 and one complaint; without a password, with 1; or by a session, after the prompt or not,
-- whose request has a user, an interface and a VLAN of at most 4094.
pub exec_mactelnet-Outcome :
    (pd : Bytes → Option Duration) (cfg : Config) (w : MactelnetWorld) (args : List Bytes)
    (cols rows : ℕ)
    → Outcome w (exec_mactelnet pd cfg w args cols rows)
unfolding exec_mactelnet
exec_mactelnet-Outcome pd cfg w args cols rows = elim (Result-cases (read_args pd cfg args)) [
  | inl (t, e) ↦
      rw (e, exec_mactelnet)
        (with_password-Outcome w t cols rows (read_args-IsAccepted pd cfg args e))
  | inr (c, e) ↦ refused c (rw (e, exec_mactelnet) refl)
]

-- The request that the arguments name.
abbrev pub named_request : Bytes → Bytes → Bytes → ℕ → Bytes → ℕ → ℕ → OpenRequest
named_request user pass iface vlan_id mac cols rows = record {
  iface = iface;
  mac = mac;
  username = user;
  password = pass;
  cols = cols % u16_mod;
  rows = rows % u16_mod;
  vlan_id = vlan_id;
}

-- With -u, -p, -i and -vlan, whatever their values look like, execMactelnet opens its session for exactly
-- these and the address, if neither user, password nor interface is empty, the VLAN is at most 4094 and
-- the address is no flag.
pub exec_mactelnet_named :
    (pd : Bytes → Option Duration) (cfg : Config) (w : MactelnetWorld) (user pass iface mac : Bytes)
    (vlan_id cols rows : ℕ)
    → is_empty user ≡ false
    → is_empty pass ≡ false
    → is_empty iface ≡ false
    → vlan_id ≤ 4094
    → read_arg mac ≡ operand
    → exec_mactelnet pd cfg w (full_args user pass iface vlan_id mac) cols rows
      ≡ run_session w (named_request user pass iface vlan_id mac cols rows)
unfolding exec_mactelnet read_args check_args check_wanted with_password find
exec_mactelnet_named pd cfg w user pass iface mac vlan_id cols rows u p i v m =
    let small : ltb 4094 vlan_id ≡ false = ground arith in
    let same : vlan_id % u16_mod ≡ vlan_id = omega arith in
    rw (parse_full pd cfg user pass iface vlan_id mac v m, read_args, exec_mactelnet)
      (rw u (rw i (rw small (rw p (rw same refl)))))
