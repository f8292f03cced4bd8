-- ===== src/Session/LoginFrame.antt =====
-- The handshake of src/internal/mactelnet/session.go changes a session only by its sends and by the switch
-- to terminal mode: the rule that carries a predicate through it.
use mactelnet_proxy.Base.{
  ℕ, ◌-◌, inl, inr, true, List, Bytes, none, some, Result, ok, err, Result-cases, Bool-cases, take,
  replicate,
}
use mactelnet_proxy.Wire.Header.{cp_type_pass_salt, cp_type_end_auth, max_packet, header_len}
use mactelnet_proxy.Auth.Messages.{Hashes, build_auth_init, build_auth_finish}
use mactelnet_proxy.Seq.Schedule.{Schedules}
use mactelnet_proxy.Session.State.{Session, SessionError, Takes, send_session_start}
use mactelnet_proxy.Session.Outbound.{Attempt, send_data_and_wait_ack}
use mactelnet_proxy.Session.Login.{
  Ecsrp, await_control, LoginWorld, Outcome, after_send, after_result, built, or_ecsrp_failed,
  salt_response, await_end, send_finish, finish, respond, answer_salt, send_init, greet, handshake,
  default_term_type,
}

module _ (P : Session → Type 0) where
  after_send_keeps :
      (m : Outcome) (f : Session → Outcome)
      → P m.0
      → ((s : Session) → P s → P (f s).0)
      → P (after_send m f).0
  after_send_keeps (s, none) f p h = h s p
  after_send_keeps (s, some e) f p h = p

  after_result_keeps {ℓ} :
      {A : Type ℓ} (s : Session) (r : Result SessionError A) (f : A → Outcome)
      → P s
      → ((a : A) → P (f a).0)
      → P (after_result s r f).0
  after_result_keeps s (ok a) f p h = h a
  after_result_keeps s (err e) f p h = p

module _ (hs : Hashes) (srp : Ecsrp) (takes : Takes) (sch : Schedules) (w : LoginWorld)
    (username password : Bytes) (cols rows : ℕ) (P : Session → Type 0)
    (sends : (world : List Attempt) (payload : Bytes) (s : Session)
      → P s
      → P (send_data_and_wait_ack takes sch world payload s).0)
    (starts : (s : Session) → P s → P (send_session_start takes s).0)
    (enters : (s : Session) → P s → P (record s { terminal_mode = true })) where
  await_end_keeps :
      (s : Session) → P s → P (await_end hs srp takes sch w username password cols rows s).0
  unfolding await_end
  await_end_keeps s p =
      elim (Result-cases
        (await_control cp_type_end_auth w.end_auth.arriving w.end_auth.wait_error)) [
          | inl (cp, e) ↦ rw (e, await_end) (enters s p)
          | inr (x, e) ↦ rw (e, await_end) p
        ]

  finish_keeps :
      (buf : Bytes) (s : Session) (response : Bytes)
      → P s
      → P (finish hs srp takes sch w username password cols rows buf s response).0
  unfolding finish send_finish
  finish_keeps buf s response p =
      after_result_keeps P s
        (built (build_auth_finish buf response username default_term_type cols rows))
        (send_finish hs srp takes sch w username password cols rows s) p
        (λ r.
          after_send_keeps P (send_data_and_wait_ack takes sch w.finish_waits (take r.0 r.1) s)
            (await_end hs srp takes sch w username password cols rows)
            (sends w.finish_waits (take r.0 r.1) s p) await_end_keeps)

  answer_salt_keeps :
      (keys : srp.Priv × Bytes) (buf : Bytes) (s : Session)
      → P s
      → P (answer_salt hs srp takes sch w username password cols rows keys buf s).0
  unfolding answer_salt respond
  answer_salt_keeps keys buf s p =
      after_result_keeps P s (await_control cp_type_pass_salt w.salt.arriving w.salt.wait_error)
        (respond hs srp takes sch w username password cols rows keys buf s) p
        (λ cp.
          after_result_keeps P s (salt_response hs srp keys username password cp.body)
            (finish hs srp takes sch w username password cols rows buf s) p
            (λ response. finish_keeps buf s response p))

  greet_keeps :
      (s : Session) (keys : srp.Priv × Bytes)
      → P s
      → P (greet hs srp takes sch w username password cols rows s keys).0
  unfolding greet send_init
  greet_keeps s keys p =
      after_result_keeps P s
        (built (build_auth_init (replicate (max_packet - header_len) 0) username keys.1))
        (send_init hs srp takes sch w username password cols rows keys s) p
        (λ r.
          after_send_keeps P (send_data_and_wait_ack takes sch w.init_waits (take r.0 r.1) s)
            (answer_salt hs srp takes sch w username password cols rows keys r.1)
            (sends w.init_waits (take r.0 r.1) s p) (answer_salt_keeps keys r.1))

  pub handshake_keeps :
      (s : Session) → P s → P (handshake hs srp takes sch w username password cols rows s).0
  unfolding handshake
  handshake_keeps s p =
      let s' = (send_session_start takes s).0 in
      let p' = starts s p in
      let go =
        after_result_keeps P s' (or_ecsrp_failed srp.keygen)
          (greet hs srp takes sch w username password cols rows s') p'
          (λ keys. greet_keeps s' keys p') in
      elim (Bool-cases (send_session_start takes s).1) [
        | inl t ↦ rw (t, handshake) go
        | inr t ↦ rw (t, handshake) p'
      ]
