-- ===== src/Cli/MactelnetLaws.antt =====
-- What runMactelnet of src/cmd/mactelnet-proxy/mactelnet.go opens.
use mactelnet_proxy.Base.{
  ◌≡◌, refl, arith, inl, inr, false, ltb, if◌then◌else◌, List, [], ◌∷◌, Bytes, Option, Result, ok,
  err, Result-cases, Bool-cases,
}
use mactelnet_proxy.Text.Strings.{codes, is_empty}
use mactelnet_proxy.Text.Flags.{Flags, parse}
use mactelnet_proxy.Seq.Schedule.{Duration}
use mactelnet_proxy.Session.Open.{OpenRequest}
use mactelnet_proxy.Ssh.ExecMactelnet.{Wanted}
use mactelnet_proxy.Ssh.ExecMactelnetLaws.{IsChecked, IsAccepted}
use mactelnet_proxy.Cli.Serve.{Env}
use mactelnet_proxy.Cli.Mactelnet.{
  mactelnet_flags, Message, Run, CliWorld, stop, wanted, check_wanted, check_args, password_of,
  run_session, request, start, run_mactelnet_flags, run_mactelnet,
}

-- The run is refused with a message, or it is that of a session.
pub data RunOutcome (w : CliWorld) (r : Run) : Type 0 where
  refused : (m : Message) → r ≡ stop 2 m → RunOutcome w r
  ran :
      (req : OpenRequest)
      → IsChecked req
      → is_empty req.password ≡ false
      → r ≡ run_session w req
      → RunOutcome w r

check_wanted-IsAccepted : (t : Wanted) {t' : Wanted} → check_wanted t ≡ ok t' → IsAccepted t'
unfolding check_wanted
check_wanted-IsAccepted t {t' = t'} h = elim (Bool-cases (is_empty t.user)) [
  | inl u ↦ absurd (ground (arith, h, u))
  | inr u ↦ elim (Bool-cases (is_empty t.iface)) [
    | inl i ↦ absurd (ground (arith, h, u, i))
    | inr i ↦ elim (Bool-cases (ltb 4094 t.vlan_id)) [
      | inl v ↦ absurd (ground (arith, h, u, i, v))
      | inr v ↦
          let e : t ≡ t' = ground (arith, h, u, i, v) in
          rw (← e) (record { user_given = u; iface_given = i; vlan_in_range = ground (arith, v) })
    ]
  ]
]

check_args-IsAccepted :
    (fs : Flags) (args : List Bytes) {t : Wanted}
    → check_args (record { flags = fs; args = args }) ≡ ok t
    → IsAccepted t
unfolding check_args
check_args-IsAccepted fs [] h = absurd cc
check_args-IsAccepted fs (mac ∷ []) h = check_wanted-IsAccepted (wanted fs mac) h
check_args-IsAccepted fs (mac ∷ _ ∷ _) h = absurd cc

password_of_given :
    (env : Env) (t : Wanted) {secret : Bytes}
    → password_of env t ≡ ok secret
    → is_empty secret ≡ false
unfolding password_of
password_of_given env t h =
    no_empty (if is_empty t.pass then env (codes "MACTELNET_PASSWORD") else t.pass) h
  where
    no_empty :
        (s : Bytes) {secret : Bytes}
        → Path
            (Result Message Bytes)
            (if is_empty s then err Message.password_required else ok s)
            (ok secret)
        → is_empty secret ≡ false
    no_empty [] k = absurd cc
    no_empty (c ∷ cs) {secret = secret} k = let e : c ∷ cs ≡ secret = cc in rw (← e) refl

start-RunOutcome : (w : CliWorld) (t : Wanted) → IsAccepted t → RunOutcome w (start w t)
unfolding start request
start-RunOutcome w t a = elim (Result-cases (password_of w.env t)) [
  | inr (m, e) ↦ refused m (rw (e, start) refl)
  | inl (secret, e) ↦
      ran (request w t secret)
        (record {
          user_given = a.user_given;
          iface_given = a.iface_given;
          vlan_in_range = let h = a.vlan_in_range in omega arith;
        })
        (password_of_given w.env t e) (rw (e, start) refl)
]

-- However it is called, runMactelnet ends with exit code 2 and one message, or runs a session: its request
-- has a user, an interface, a password that is not empty and a VLAN of at most 4094.
pub run_mactelnet-RunOutcome :
    (pd : Bytes → Option Duration) (w : CliWorld) (args : List Bytes)
    → RunOutcome w (run_mactelnet pd w args)
unfolding run_mactelnet run_mactelnet_flags
run_mactelnet-RunOutcome pd w args = elim (Result-cases (parse pd mactelnet_flags args)) [
  | inr (x, e) ↦ refused Message.bad_flags (rw (e, run_mactelnet) refl)
  | inl (fs, e) ↦ elim (Result-cases (check_args fs)) [
    | inr (m, f) ↦ refused m (rw (e, run_mactelnet) (rw (f, run_mactelnet_flags) refl))
    | inl (t, f) ↦
        rw (e, run_mactelnet)
          (rw (f, run_mactelnet_flags)
            (start-RunOutcome w t (check_args-IsAccepted fs.flags fs.args f)))
  ]
]
