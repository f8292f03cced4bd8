-- ===== src/Session/Login.antt =====
-- src/internal/mactelnet/session.go: awaitControl and handshake. The EC-SRP computations of mtwei.go
-- are an interface that Srp fills; the records that a wait receives from controlCh are given in order.
use mactelnet_proxy.Base.{
  ℕ, ◌-◌, true, if◌then◌else◌, ◌==◌, List, [], ◌∷◌, Bytes, Option, none, some, Result, ok, err,
  length, take, drop, replicate,
}
use mactelnet_proxy.Wire.Header.{
  CpType, WireError, cp_type_pass_salt, cp_type_end_auth, max_packet, header_len,
}
use mactelnet_proxy.Wire.Control.{ControlRecord}
use mactelnet_proxy.Auth.Messages.{
  Hashes, compute_md5_response, mtwei_id, md5_salt_len, ecsrp_salt_len, ecsrp_pubkey_len,
  build_auth_init, build_auth_finish,
}
use mactelnet_proxy.Srp.Curve.{BigInt}
use mactelnet_proxy.Srp.Exchange
use mactelnet_proxy.Srp.Exchange.{SrpError}
use mactelnet_proxy.Seq.Schedule.{Schedules}
use mactelnet_proxy.Session.State.{
  Session, SessionError, bad_control, auth_failed, bad_salt_length, ecsrp_failed, send_failed,
  Takes, send_session_start,
}
use mactelnet_proxy.Session.Outbound.{Attempt, send_data_and_wait_ack}

-- `newMtweiState().keygen(rand.Reader, nil)`, with the randomness drawn, and `docrypto`.
pub record Ecsrp : Type 1 where
  pub Priv : Type 0
  pub keygen : Option (Priv × Bytes)
  pub docrypto : Priv → Bytes → Bytes → Bytes → Option Bytes

abbrev to_option {ℓ} : {A : Type ℓ} → Result SrpError A → Option A
to_option (ok a) = some a
to_option (err e) = none

-- The computations of mtwei.go; a panic ends the login as an error does.
unfoldable pub mtwei : BigInt → Hashes → Option Bytes → Ecsrp
mtwei big hs raw = record {
  Priv = ℕ;
  keygen = to_option (Exchange.keygen big hs raw none);
  docrypto = λ priv server_key client_key validator.
      to_option (Exchange.docrypto big hs priv server_key client_key validator);
}

-- What a wait for a control record receives, and the error of the context that ends it.
pub record Arrivals : Type 0 where
  pub arriving : List ControlRecord
  pub wait_error : SessionError

-- `awaitControl`: records of other kinds are dropped.
unfoldable pub await_control :
    CpType → List ControlRecord → SessionError → Result SessionError ControlRecord
await_control want [] e = err e
await_control want (cp ∷ cps) e =
    let rest = await_control want cps e in if cp.cp_type == want then ok cp else rest

-- What the peer does during a login.
pub record LoginWorld : Type 0 where
  pub init_waits : List Attempt
  pub salt : Arrivals
  pub finish_waits : List Attempt
  pub end_auth : Arrivals

abbrev pub Outcome : Type 0
Outcome = Session × Option SessionError

-- `if err != nil { return err }`, after a step that changes the session and after one that does not.
abbrev pub after_send : Outcome → (Session → Outcome) → Outcome
after_send (s, none) f = f s
after_send (s, some e) f = (s, some e)

abbrev pub after_result {ℓ} :
    {A : Type ℓ} → Session → Result SessionError A → (A → Outcome) → Outcome
after_result s (ok a) f = f a
after_result s (err e) f = (s, some e)

abbrev pub built : Result WireError (ℕ × Bytes) → Result SessionError (ℕ × Bytes)
built (ok r) = ok r
built (err e) = err (bad_control e)

abbrev pub or_ecsrp_failed {ℓ} : {A : Type ℓ} → Option A → Result SessionError A
or_ecsrp_failed none = err ecsrp_failed
or_ecsrp_failed (some a) = ok a

-- `copy(serverKey[:], saltCp.body[:ecsrpPubkeyLen])` and the salt behind it.
unfoldable pub salt_response :
    Hashes → (srp : Ecsrp) → srp.Priv × Bytes → Bytes → Bytes → Bytes → Result SessionError Bytes
salt_response hs srp (priv, client_pub) username password body =
    if length body == md5_salt_len
    then ok (compute_md5_response hs password body)
    else if length body == ecsrp_salt_len
    then or_ecsrp_failed (
        srp.docrypto priv (take ecsrp_pubkey_len body) client_pub
          (mtwei_id hs username password (drop ecsrp_pubkey_len body)))
    else err (bad_salt_length (length body))

-- "xterm-256color"
abbrev pub default_term_type : Bytes
default_term_type =
    b'x' ∷ b't' ∷ b'e' ∷ b'r' ∷ b'm' ∷ b'-' ∷ b'2' ∷ b'5' ∷ b'6' ∷ b'c' ∷ b'o' ∷ b'l' ∷ b'o' ∷ b'r'
    ∷ []

module _ (hs : Hashes) (srp : Ecsrp) (takes : Takes) (sch : Schedules) (w : LoginWorld)
    (username password : Bytes) (cols rows : ℕ) where
  -- The end of the handshake: END_AUTH, and only then terminal mode.
  unfoldable pub await_end : Session → Outcome
  await_end s = elim (await_control cp_type_end_auth w.end_auth.arriving w.end_auth.wait_error) [
    | err e ↦ (s, some auth_failed)
    | ok cp ↦ (record s { terminal_mode = true }, none)
  ]

  -- The second message, from its buffer on.
  unfoldable pub send_finish : Session → ℕ × Bytes → Outcome
  send_finish s (n, buf) =
      after_send (send_data_and_wait_ack takes sch w.finish_waits (take n buf) s) await_end

  -- From the response on; the buffer is the one that held the first message.
  unfoldable pub finish : Bytes → Session → Bytes → Outcome
  finish buf s response =
      after_result s (built (build_auth_finish buf response username default_term_type cols rows))
        (send_finish s)

  -- From the salt record on.
  unfoldable pub respond : srp.Priv × Bytes → Bytes → Session → ControlRecord → Outcome
  respond keys buf s cp =
      after_result s (salt_response hs srp keys username password cp.body) (finish buf s)

  -- From the first message's acknowledgement on.
  unfoldable pub answer_salt : srp.Priv × Bytes → Bytes → Session → Outcome
  answer_salt keys buf s =
      after_result s (await_control cp_type_pass_salt w.salt.arriving w.salt.wait_error)
        (respond keys buf s)

  -- The first message, from its buffer on.
  unfoldable pub send_init : srp.Priv × Bytes → Session → ℕ × Bytes → Outcome
  send_init keys s (n, buf) =
      after_send (send_data_and_wait_ack takes sch w.init_waits (take n buf) s)
        (answer_salt keys buf)

  -- From the key pair on.
  unfoldable pub greet : Session → srp.Priv × Bytes → Outcome
  greet s keys =
      after_result s
        (built (build_auth_init (replicate (max_packet - header_len) 0) username keys.1))
        (send_init keys s)

  -- `handshake`
  unfoldable pub handshake : Session → Outcome
  handshake s =
      let (s, taken) = send_session_start takes s in
      if taken then after_result s (or_ecsrp_failed srp.keygen) (greet s) else (s, some send_failed)
