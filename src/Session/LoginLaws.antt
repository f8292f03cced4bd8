-- ===== src/Session/LoginLaws.antt =====
-- What the handshake of src/internal/mactelnet/session.go establishes.
use mactelnet_proxy.Base.{
  ℕ, ◌-◌, ◌≡◌, ◌⊎◌, inl, inr, refl, sym, ◌∙◌, ap, arith, Bool, true, ◌==◌, List, [], ◌∷◌, Bytes,
  none, some, Result, ok, err, Result-cases, Bool-cases, length, take, replicate,
}
use mathlib.Core.Path.{subst}
use mactelnet_proxy.Wire.Header.{
  CpType, cp_type_pass_salt, cp_type_end_auth, max_packet, header_len,
}
use mactelnet_proxy.Wire.Control.{ControlRecord}
use mactelnet_proxy.Auth.Messages.{Hashes, build_auth_init, build_auth_finish}
use mactelnet_proxy.Seq.Schedule.{Schedules}
use mactelnet_proxy.Session.State.{
  Session, SessionError, auth_failed, send_failed, Takes, post, send_session_start,
}
use mactelnet_proxy.Session.Outbound.{Attempt, send_data_and_wait_ack}
use mactelnet_proxy.Session.OutboundLaws.{send_data_and_wait_ack-sent}
use mactelnet_proxy.Session.Login.{
  Ecsrp, await_control, LoginWorld, Outcome, after_send, after_result, built, or_ecsrp_failed,
  salt_response, await_end, send_finish, finish, respond, answer_salt, send_init, greet, handshake,
  default_term_type,
}

-- A record of a kind among those that arrive, of which P holds.
abbrev pub Received : CpType → (ControlRecord → Type 0) → List ControlRecord → Type 0
Received want P [] = ⊥
Received want P (cp ∷ cps) = ((cp.cp_type ≡ want) × P cp) ⊎ Received want P cps

await_control_step :
    (want : CpType) (c : ControlRecord) (cps : List ControlRecord) (e : SessionError)
    → ((c.cp_type ≡ want) × (await_control want (c ∷ cps) e ≡ ok c))
      ⊎ (await_control want (c ∷ cps) e ≡ await_control want cps e)
unfolding await_control
await_control_step want c cps e = elim (Bool-cases (c.cp_type == want)) [
  | inl t ↦ inl (ground arith, rw (t, await_control) refl)
  | inr t ↦ inr (rw (t, await_control) refl)
]

same_ok : {c d : ControlRecord} → Path (Result SessionError ControlRecord) (ok c) (ok d) → c ≡ d
same_ok e = cc

pub await_control-Received :
    (want : CpType) (cps : List ControlRecord) (e : SessionError) (cp : ControlRecord)
    (P : ControlRecord → Type 0)
    → await_control want cps e ≡ ok cp
    → P cp
    → Received want P cps
await_control-Received want [] e cp P h p = absurd (unfold await_control in cc)
await_control-Received want (c ∷ cps) e cp P h p =
    let later : await_control want cps e ≡ ok cp → Received want P cps =
      λ k. await_control-Received want cps e cp P k p in
    elim (await_control_step want c cps e) [
      | inl (t, q) ↦ inl (t, subst P (sym (same_ok (sym q ∙ h))) p)
      | inr q ↦ inr (later (sym q ∙ h))
    ]

abbrev pub IsSalt : ControlRecord → Type 0
IsSalt cp = (length cp.body ≡ 16) ⊎ (length cp.body ≡ 49)

abbrev pub IsAny : ControlRecord → Type 0
IsAny cp = Unit

-- Either the login succeeded, in terminal mode, after a salt of a known length and an END_AUTH; or
-- it failed and the mode is what it was.
pub data LoginResult (w : LoginWorld) (mode : Bool) (r : Outcome) : Type 0 where
  logged_in :
      r.1 ≡ none
      → r.0.terminal_mode ≡ true
      → Received cp_type_pass_salt IsSalt w.salt.arriving
      → Received cp_type_end_auth IsAny w.end_auth.arriving
      → LoginResult w mode r
  refused : (e : SessionError) → r.1 ≡ some e → r.0.terminal_mode ≡ mode → LoginResult w mode r

module _ (w : LoginWorld) (mode : Bool) where
  after_send_lem :
      (m : Outcome) (f : Session → Outcome)
      → m.0.terminal_mode ≡ mode
      → ((s : Session) → s.terminal_mode ≡ mode → LoginResult w mode (f s))
      → LoginResult w mode (after_send m f)
  after_send_lem (s, none) f same h = h s same
  after_send_lem (s, some e) f same h = refused e refl same

  after_result_lem {ℓ} :
      {A : Type ℓ} (s : Session) (r : Result SessionError A) (f : A → Outcome)
      → s.terminal_mode ≡ mode
      → ((a : A) → r ≡ ok a → LoginResult w mode (f a))
      → LoginResult w mode (after_result s r f)
  after_result_lem s (ok a) f same h = h a refl
  after_result_lem s (err e) f same h = refused e refl same

send-mode :
    (takes : Takes) (sch : Schedules) (world : List Attempt) (payload : Bytes) (s : Session)
    {mode : Bool}
    → s.terminal_mode ≡ mode
    → (send_data_and_wait_ack takes sch world payload s).0.terminal_mode ≡ mode
send-mode takes sch world payload s same =
    let (k, low, high, e) = send_data_and_wait_ack-sent takes sch world payload s in
    ap (λ t. t.terminal_mode) e ∙ same

salt_response-IsSalt :
    (hs : Hashes) (srp : Ecsrp) (keys : srp.Priv × Bytes) (username password : Bytes)
    (cp : ControlRecord) (r : Bytes)
    → salt_response hs srp keys username password cp.body ≡ ok r
    → IsSalt cp
unfolding salt_response
salt_response-IsSalt hs srp keys username password cp r h = ground arith

module _ (hs : Hashes) (srp : Ecsrp) (takes : Takes) (sch : Schedules) (w : LoginWorld)
    (username password : Bytes) (cols rows : ℕ) where
  await_end_lem :
      (s : Session) {mode : Bool}
      → s.terminal_mode ≡ mode
      → Received cp_type_pass_salt IsSalt w.salt.arriving
      → LoginResult w mode (await_end hs srp takes sch w username password cols rows s)
  unfolding await_end
  await_end_lem s same salt =
      elim (Result-cases
        (await_control cp_type_end_auth w.end_auth.arriving w.end_auth.wait_error)) [
          | inl (cp, e) ↦
              rw (e, await_end)
                (logged_in refl refl salt (await_control-Received _ _ _ cp IsAny e tt))
          | inr (x, e) ↦ rw (e, await_end) (refused auth_failed refl same)
        ]

  finish_lem :
      (buf : Bytes) (s : Session) {mode : Bool} (response : Bytes)
      → s.terminal_mode ≡ mode
      → Received cp_type_pass_salt IsSalt w.salt.arriving
      → LoginResult w mode (finish hs srp takes sch w username password cols rows buf s response)
  unfolding finish send_finish
  finish_lem buf s {mode} response same salt =
      after_result_lem w mode s
        (built (build_auth_finish buf response username default_term_type cols rows))
        (send_finish hs srp takes sch w username password cols rows s) same
        (λ r e.
          after_send_lem w mode (send_data_and_wait_ack takes sch w.finish_waits (take r.0 r.1) s)
            (await_end hs srp takes sch w username password cols rows)
            (send-mode takes sch w.finish_waits (take r.0 r.1) s same)
            (λ s' same'. await_end_lem s' same' salt))

  answer_salt_lem :
      (keys : srp.Priv × Bytes) (buf : Bytes) (s : Session) {mode : Bool}
      → s.terminal_mode ≡ mode
      → LoginResult w mode (answer_salt hs srp takes sch w username password cols rows keys buf s)
  unfolding answer_salt respond
  answer_salt_lem keys buf s {mode} same =
      after_result_lem w mode s (await_control cp_type_pass_salt w.salt.arriving w.salt.wait_error)
        (respond hs srp takes sch w username password cols rows keys buf s) same
        (λ cp e.
          after_result_lem w mode s (salt_response hs srp keys username password cp.body)
            (finish hs srp takes sch w username password cols rows buf s) same
            (λ response f. finish_lem buf s response same (
              await_control-Received cp_type_pass_salt w.salt.arriving w.salt.wait_error cp IsSalt e
                (salt_response-IsSalt hs srp keys username password cp response f))))

  greet_lem :
      (s : Session) (keys : srp.Priv × Bytes) {mode : Bool}
      → s.terminal_mode ≡ mode
      → LoginResult w mode (greet hs srp takes sch w username password cols rows s keys)
  unfolding greet send_init
  greet_lem s keys {mode} same =
      after_result_lem w mode s
        (built (build_auth_init (replicate (max_packet - header_len) 0) username keys.1))
        (send_init hs srp takes sch w username password cols rows keys s) same
        (λ r e.
          after_send_lem w mode (send_data_and_wait_ack takes sch w.init_waits (take r.0 r.1) s)
            (answer_salt hs srp takes sch w username password cols rows keys r.1)
            (send-mode takes sch w.init_waits (take r.0 r.1) s same)
            (λ s' same'. answer_salt_lem keys r.1 s' same'))

-- A login that succeeds has put the session into terminal mode, and a salt of 16 or 49 bytes and an
-- END_AUTH arrived; a login that fails, for whatever reason, leaves the mode as it was.
pub handshake-LoginResult :
    (hs : Hashes) (srp : Ecsrp) (takes : Takes) (sch : Schedules) (w : LoginWorld)
    (username password : Bytes) (cols rows : ℕ) (s : Session)
    → LoginResult w s.terminal_mode (handshake hs srp takes sch w username password cols rows s)
unfolding handshake send_session_start post
handshake-LoginResult hs srp takes sch w username password cols rows s =
    let s' = (send_session_start takes s).0 in
    let go =
      after_result_lem w s.terminal_mode s' (or_ecsrp_failed srp.keygen)
        (greet hs srp takes sch w username password cols rows s') refl
        (λ keys e. greet_lem hs srp takes sch w username password cols rows s' keys refl) in
    elim (Bool-cases (takes (length s.sent))) [
      | inl t ↦ rw t go
      | inr t ↦ rw t (refused send_failed refl refl)
    ]
