-- ===== src/Session/OutboundLaws.antt =====
-- How often src/internal/mactelnet/session.go sends a packet, and when it calls the sending a success.
use mactelnet_proxy.Base.{
  ℕ, suc, ◌+◌, ◌%◌, ◌≤◌, ◌≡◌, inl, inr, refl, ◌∙◌, ap, arith, Bool, true, false, if◌then◌else◌,
  List, [], ◌∷◌, ◌++◌, append_assoc, Bytes, Option, some, length, replicate, u32_mod, Bool-cases,
}
use mactelnet_proxy.Wire.Header.{p_type_data, to_server}
use mactelnet_proxy.Wire.HeaderRoundTrip.{header_bytes}
use mactelnet_proxy.Session.Packets.{packet_bytes}
use mactelnet_proxy.Seq.Counters.{reserve_out, ack_counter_for}
use mactelnet_proxy.Seq.Schedule.{Schedules}
use mactelnet_proxy.Session.State.{Session, SessionError, send_failed, Takes, post, header_of}
use mactelnet_proxy.Session.Outbound.{Attempt, retransmit, send_repeatedly, send_data_and_wait_ack}
use mactelnet_proxy.Session.Retransmission.{
  sent_times, SentUpTo, retransmit-SentUpTo, HeardIn, Patient, Outcome, retransmit-Outcome,
}

-- The bytes of a DATA packet, the schedule of the phase, and the session once it reserved n bytes.
abbrev pub data_bytes : Session → Bytes → Bytes
data_bytes s payload = header_bytes (header_of s p_type_data s.counters.out) to_server ++ payload

abbrev pub schedule_of : Schedules → Session → List ℕ
schedule_of sch s = if s.terminal_mode then sch.data_schedule else sch.auth_schedule

abbrev pub reserved : ℕ → Session → Session
reserved n s = record s {
  ack_ch = [];
  counters = record s.counters { out = (s.counters.out + n) % u32_mod };
}

abbrev pub awaited : Session → Bytes → ℕ
awaited s payload = (s.counters.out + length payload) % u32_mod

send_repeatedly_steps :
    (takes : Takes) (pkt : Bytes) (want : ℕ) (schedule : List ℕ) (world : List Attempt)
    (s : Session)
    → send_repeatedly takes pkt want schedule world s ≡ (
        if takes (length s.sent)
        then retransmit takes pkt want schedule world (sent_times 1 pkt s)
        else (sent_times 1 pkt s, some send_failed))
unfolding send_repeatedly post
send_repeatedly_steps takes pkt want schedule world s = elim (Bool-cases (takes (length s.sent))) [
  | inl e ↦ rw e
  | inr e ↦ rw e
]

send_steps :
    (takes : Takes) (sch : Schedules) (world : List Attempt) (payload : Bytes) (s : Session)
    → send_data_and_wait_ack takes sch world payload s ≡ (
        if takes (length s.sent)
        then retransmit takes
            (data_bytes s payload)
            (awaited s payload)
            (schedule_of sch s)
            world
            (sent_times 1 (data_bytes s payload) (reserved (length payload) s))
        else (sent_times 1 (data_bytes s payload) (reserved (length payload) s), some send_failed))
unfolding send_data_and_wait_ack reserve_out ack_counter_for
send_steps takes sch world payload s =
    let s' = reserved (length payload) s in
    ap (λ pkt. send_repeatedly takes pkt (awaited s payload) (schedule_of sch s) world s')
      (packet_bytes s' p_type_data s.counters.out payload)
    ∙ send_repeatedly_steps takes (data_bytes s payload) (awaited s payload) (schedule_of sch s)
        world s'

first_sent :
    (t : Bool) (n : ℕ) (pkt : Bytes) (s : Session) (r : Session × Option SessionError)
    → SentUpTo n pkt (sent_times 1 pkt s) r
    → (k : ℕ) × (1 ≤ k)
      × (k ≤ 1 + n)
      × ((if t then r else (sent_times 1 pkt s, some send_failed)).0 ≡ sent_times k pkt s)
first_sent true n pkt s r (k, le, e) = (
  suc k,
  omega arith,
  omega arith,
  e ∙ ap (λ t. record s { sent = t }) (append_assoc s.sent (pkt ∷ []) (replicate k pkt)),
)
first_sent false n pkt s r h = (1, omega arith, omega arith, refl)

-- Whatever the network does, sending a payload hands the same packet to the sender between once and
-- once more than the schedule has entries; besides, only the outgoing counter moves, by the length
-- of the payload modulo 2^32, and the acknowledgements that were waiting are dropped.
pub send_data_and_wait_ack-sent :
    (takes : Takes) (sch : Schedules) (world : List Attempt) (payload : Bytes) (s : Session)
    → (k : ℕ) × (1 ≤ k)
      × (k ≤ 1 + length (schedule_of sch s))
      × ((send_data_and_wait_ack takes sch world payload s).0
          ≡ sent_times k (data_bytes s payload) (reserved (length payload) s))
send_data_and_wait_ack-sent takes sch world payload s =
    let pkt = data_bytes s payload in
    let s' = reserved (length payload) s in
    rw (send_steps takes sch world payload s) (
      first_sent (takes (length s.sent)) (length (schedule_of sch s)) pkt s' _ (
        retransmit-SentUpTo takes pkt (awaited s payload) (schedule_of sch s) world
          (sent_times 1 pkt s')))

-- When the sender takes every packet and nobody cancels, sending succeeds exactly if the
-- acknowledgement of the payload's last byte arrives in one of the waits of the schedule, and else
-- fails because the schedule is exhausted.
pub send_data_and_wait_ack-Outcome :
    (takes : Takes) (sch : Schedules) (world : List Attempt) (payload : Bytes) (s : Session)
    → ((n : ℕ) → takes n ≡ true)
    → Patient world
    → Outcome
        (HeardIn (awaited s payload) (schedule_of sch s) world)
        (send_data_and_wait_ack takes sch world payload s).1
send_data_and_wait_ack-Outcome takes sch world payload s ok p =
    rw (send_steps takes sch world payload s, ok (length s.sent))
      (retransmit-Outcome takes (data_bytes s payload) (awaited s payload) (schedule_of sch s) world
        (sent_times 1 (data_bytes s payload) (reserved (length payload) s)) ok p)
