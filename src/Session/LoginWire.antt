-- ===== src/Session/LoginWire.antt =====
-- What the handshake of src/internal/mactelnet/session.go puts on the wire, on each of its ways.
use mactelnet_proxy.Base.{
  ℕ, ◌-◌, ◌≡◌, inl, inr, refl, sym, Bytes, Option, none, some, Result, ok, err, Result-cases,
  Bool-cases, length, take, replicate,
}
use mathlib.Core.Path.{subst}
use mactelnet_proxy.Wire.Header.{
  WireError, cp_type_pass_salt, cp_type_end_auth, max_packet, header_len,
}
use mactelnet_proxy.Auth.Messages.{Hashes, build_auth_init, build_auth_finish}
use mactelnet_proxy.Auth.Records.{
  init_records, finish_records, build_auth_init_taken, build_auth_finish_taken,
}
use mactelnet_proxy.Seq.Schedule.{Schedules}
use mactelnet_proxy.Session.State.{
  Session, SessionError, auth_failed, send_failed, Takes, post, send_session_start,
}
use mactelnet_proxy.Session.Outbound.{send_data_and_wait_ack}
use mactelnet_proxy.Session.Retransmission.{sent_times}
use mactelnet_proxy.Session.OutboundLaws.{data_bytes, reserved, send_data_and_wait_ack-sent}
use mactelnet_proxy.Session.Login.{
  Ecsrp, await_control, LoginWorld, Outcome, after_send, after_result, built, or_ecsrp_failed,
  salt_response, await_end, send_finish, finish, respond, answer_salt, send_init, greet, handshake,
  default_term_type,
}
use mactelnet_proxy.Session.LoginLaws.{Received, IsAny, await_control-Received}
use mactelnet_proxy.Session.Transcript.{
  started, said, Tries, Transcript, started_only, greeted, answered, accepted,
}

after_said :
    (m : Outcome) (f : Session → Outcome) (s : Session) (P : Outcome → Type 0)
    → m.0 ≡ s
    → ((e : SessionError) → P (s, some e))
    → P (f s)
    → P (after_send m f)
after_said (t, none) f s P same failed next = subst (λ u. P (f u)) (sym same) next
after_said (t, some e) f s P same failed next = subst (λ u. P (u, some e)) (sym same) (failed e)

after_found {ℓ} :
    {A : Type ℓ} (s : Session) (r : Result SessionError A) (f : A → Outcome) (P : Outcome → Type 0)
    → ((e : SessionError) → P (s, some e))
    → ((a : A) → r ≡ ok a → P (f a))
    → P (after_result s r f)
after_found s (ok a) f P failed next = next a refl
after_found s (err e) f P failed next = failed e

built-ok : (r : Result WireError (ℕ × Bytes)) (x : ℕ × Bytes) → built r ≡ ok x → r ≡ ok x
built-ok (ok r) x e = cc
built-ok (err r) x e = absurd cc

or_ecsrp_failed-ok {ℓ} : {A : Type ℓ} (r : Option A) (x : A) → or_ecsrp_failed r ≡ ok x → r ≡ some x
or_ecsrp_failed-ok none x e = absurd cc
or_ecsrp_failed-ok (some a) x e = cc

module _ (hs : Hashes) (srp : Ecsrp) (takes : Takes) (sch : Schedules) (w : LoginWorld)
    (username password : Bytes) (cols rows : ℕ) (s : Session) where
  abbrev Told : Outcome → Type 0
  Told = Transcript hs srp sch w username password cols rows s

  finish-Told :
      (keys : srp.Priv × Bytes) (buf response : Bytes) (k : ℕ)
      → srp.keygen ≡ some keys
      → Tries sch s k
      → Received cp_type_pass_salt
          (λ cp. salt_response hs srp keys username password cp.body ≡ ok response)
          w.salt.arriving
      → Told (
          finish hs srp takes sch w username password cols rows buf
            (said k (init_records username keys.1) (started s))
            response)
  unfolding finish send_finish await_end
  finish-Told keys buf response k drawn tries salt =
      let t = said k (init_records username keys.1) (started s) in
      let rs = finish_records response username default_term_type cols rows in
      after_found t (built (build_auth_finish buf response username default_term_type cols rows))
        (send_finish hs srp takes sch w username password cols rows t) Told
        (λ e. greeted keys drawn k tries e refl)
        (λ r e.
          let whole =
            build_auth_finish_taken buf response username default_term_type cols rows r.0 r.1
              (built-ok _ _ e) in
          let (l, low, high, sent) =
            send_data_and_wait_ack-sent takes sch w.finish_waits (take r.0 r.1) t in
          let tries' : Tries sch s l = (low, high) in
          after_said (send_data_and_wait_ack takes sch w.finish_waits (take r.0 r.1) t)
            (await_end hs srp takes sch w username password cols rows) (said l rs t) Told
            (subst
              (λ payload.
                (send_data_and_wait_ack takes sch w.finish_waits (take r.0 r.1) t).0
                ≡ sent_times l (data_bytes t payload) (reserved (length payload) t))
              whole sent)
            (λ x. answered keys drawn response salt k l tries tries' x refl)
            (elim (Result-cases
              (await_control cp_type_end_auth w.end_auth.arriving w.end_auth.wait_error)) [
                | inl (cp, f) ↦
                    rw (f, await_end)
                      (accepted keys drawn response salt k l tries tries'
                        (await_control-Received _ _ _ cp IsAny f tt) refl)
                | inr (x, f) ↦
                    rw (f, await_end)
                      (answered keys drawn response salt k l tries tries' auth_failed refl)
              ]))

  greet-Told :
      (keys : srp.Priv × Bytes)
      → srp.keygen ≡ some keys
      → Told (greet hs srp takes sch w username password cols rows (started s) keys)
  unfolding greet send_init answer_salt respond
  greet-Told keys drawn =
      let t = started s in
      let rs = init_records username keys.1 in
      let buf = replicate (max_packet - header_len) 0 in
      after_found t (built (build_auth_init buf username keys.1))
        (send_init hs srp takes sch w username password cols rows keys t) Told
        (λ e. started_only e refl)
        (λ r e.
          let (k, low, high, sent) =
            send_data_and_wait_ack-sent takes sch w.init_waits (take r.0 r.1) t in
          let tries : Tries sch s k = (low, high) in
          let stop : (x : SessionError) → Told (said k rs t, some x) =
            λ x. greeted keys drawn k tries x refl in
          after_said (send_data_and_wait_ack takes sch w.init_waits (take r.0 r.1) t)
            (answer_salt hs srp takes sch w username password cols rows keys r.1) (said k rs t) Told
            (subst
              (λ payload.
                (send_data_and_wait_ack takes sch w.init_waits (take r.0 r.1) t).0
                ≡ sent_times k (data_bytes t payload) (reserved (length payload) t))
              (build_auth_init_taken buf username keys.1 r.0 r.1 (built-ok _ _ e)) sent)
            stop
            (after_found (said k rs t)
              (await_control cp_type_pass_salt w.salt.arriving w.salt.wait_error)
              (respond hs srp takes sch w username password cols rows keys r.1 (said k rs t)) Told
              stop
              (λ cp heard.
                after_found (said k rs t) (salt_response hs srp keys username password cp.body)
                  (finish hs srp takes sch w username password cols rows r.1 (said k rs t)) Told
                  stop
                  (λ response f. finish-Told keys r.1 response k drawn tries (
                    await_control-Received cp_type_pass_salt w.salt.arriving w.salt.wait_error cp
                      (λ c. salt_response hs srp keys username password c.body ≡ ok response) heard
                      f)))))

-- Whatever the router and the network do, the handshake puts a SESSIONSTART on the wire, and then
-- at most two DATA packets, each the same bytes one to a schedule's length plus one times: with
-- BEGINAUTH and PASSSALT of a drawn key; and with the answer to a salt that was received, the name,
-- the terminal and its size, the counter behind the first. Nothing else of the session changes but
-- the counter, the emptied acknowledgements and, if both were sent and an END_AUTH was received, the mode.
pub handshake-Transcript :
    (hs : Hashes) (srp : Ecsrp) (takes : Takes) (sch : Schedules) (w : LoginWorld)
    (username password : Bytes) (cols rows : ℕ) (s : Session)
    → Transcript hs srp sch w username password cols rows s
        (handshake hs srp takes sch w username password cols rows s)
unfolding handshake send_session_start post
handshake-Transcript hs srp takes sch w username password cols rows s =
    let t = started s in
    let go =
      after_found t (or_ecsrp_failed srp.keygen)
        (greet hs srp takes sch w username password cols rows t)
        (Transcript hs srp sch w username password cols rows s) (λ e. started_only e refl)
        (λ keys e.
          greet-Told hs srp takes sch w username password cols rows s keys
            (or_ecsrp_failed-ok srp.keygen keys e)) in
    elim (Bool-cases (takes (length s.sent))) [
      | inl b ↦ rw b go
      | inr b ↦ rw b (started_only send_failed refl)
    ]
