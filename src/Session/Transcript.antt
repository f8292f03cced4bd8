-- ===== src/Session/Transcript.antt =====
-- What a login of src/internal/mactelnet/session.go has put on the wire where it ends: a description that
-- does not follow the steps of the code.
use mactelnet_proxy.Base.{
  ℕ, ◌+◌, ◌≤◌, ◌≡◌, true, List, [], ◌∷◌, ◌++◌, Bytes, none, some, ok, length,
}
use mactelnet_proxy.Wire.Header.{cp_type_pass_salt, cp_type_end_auth, p_type_session_start}
use mactelnet_proxy.Wire.Control.{ControlRecord}
use mactelnet_proxy.Wire.Records.{wire}
use mactelnet_proxy.Auth.Messages.{Hashes}
use mactelnet_proxy.Auth.Records.{init_records, finish_records}
use mactelnet_proxy.Seq.Schedule.{Schedules}
use mactelnet_proxy.Session.State.{Session, SessionError, packet}
use mactelnet_proxy.Session.Retransmission.{sent_times}
use mactelnet_proxy.Session.OutboundLaws.{data_bytes, schedule_of, reserved}
use mactelnet_proxy.Session.Login.{Ecsrp, LoginWorld, Outcome, salt_response, default_term_type}
use mactelnet_proxy.Session.LoginLaws.{Received, IsAny}

-- A session that has sent its SESSIONSTART, and one that has sent the DATA packet of some records k times.
abbrev pub started : Session → Session
started s = record s { sent = s.sent ++ packet s p_type_session_start 0 [] ∷ [] }

abbrev pub said : ℕ → List ControlRecord → Session → Session
said k rs s = sent_times k (data_bytes s (wire rs)) (reserved (length (wire rs)) s)

-- At least once, and at most once more than the schedule has intervals.
abbrev pub Tries : Schedules → Session → ℕ → Type 0
Tries sch s k = (1 ≤ k) × (k ≤ 1 + length (schedule_of sch s))

-- What the peer saw of a login, and what became of it.
pub data Transcript (hs : Hashes) (srp : Ecsrp) (sch : Schedules) (w : LoginWorld)
    (username password : Bytes) (cols rows : ℕ) (s : Session) (r : Outcome) : Type 0 where
  started_only :
      (e : SessionError)
      → r ≡ (started s, some e)
      → Transcript hs srp sch w username password cols rows s r
  greeted :
      (keys : srp.Priv × Bytes)
      → srp.keygen ≡ some keys
      → (k : ℕ) → Tries sch s k
      → (e : SessionError) → r ≡ (said k (init_records username keys.1) (started s), some e)
      → Transcript hs srp sch w username password cols rows s r
  answered :
      (keys : srp.Priv × Bytes)
      → srp.keygen ≡ some keys
      → (response : Bytes)
      → Received cp_type_pass_salt
          (λ cp. salt_response hs srp keys username password cp.body ≡ ok response)
          w.salt.arriving
      → (k l : ℕ) → Tries sch s k
      → Tries sch s l
      → (e : SessionError)
      → r ≡ (
        said l
            (finish_records response username default_term_type cols rows)
            (said k (init_records username keys.1) (started s)),
        some e,
      )
      → Transcript hs srp sch w username password cols rows s r
  accepted :
      (keys : srp.Priv × Bytes)
      → srp.keygen ≡ some keys
      → (response : Bytes)
      → Received cp_type_pass_salt
          (λ cp. salt_response hs srp keys username password cp.body ≡ ok response)
          w.salt.arriving
      → (k l : ℕ) → Tries sch s k
      → Tries sch s l
      → Received cp_type_end_auth IsAny w.end_auth.arriving
      → r ≡ (
        record (said l
            (finish_records response username default_term_type cols rows)
            (said k (init_records username keys.1) (started s))) { terminal_mode = true },
        none,
      )
      → Transcript hs srp sch w username password cols rows s r
