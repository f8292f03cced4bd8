-- ===== src/Session/Outbound.antt =====
-- src/internal/mactelnet/session.go: sending with retransmission, and what is built on it. While a send
-- waits, the receive loop runs: `Attempt` is what one wait receives from ackCh, and how it ends if
-- the awaited counter is not among it.
use mactelnet_proxy.Base.{
  ℕ, ◌+◌, ◌-◌, ◌*◌, Bool, true, false, if◌then◌else◌, ltb, ◌==◌, List, [], ◌∷◌, Bytes, le16, Option,
  none, some, Result, ok, err, ◌>>=◌, length, take, replicate,
}
use mactelnet_proxy.Wire.Header.{
  p_type_data, p_type_ack, cp_type_plain_data, cp_type_term_width, cp_type_term_height,
  cp_header_len, max_packet, header_len, WireError,
}
use mactelnet_proxy.Wire.Control.{encode_control}
use mactelnet_proxy.Seq.Counters.{reserve_out, ack_counter_for}
use mactelnet_proxy.Seq.Schedule.{Schedules}
use mactelnet_proxy.Auth.Messages.{encode_next}
use mactelnet_proxy.Session.State.{
  Session, SessionError, net_closed, write_too_large, bad_control, canceled, deadline_exceeded,
  retransmit_exhausted, send_failed, Takes, packet, post,
}

pub data WaitEnd : Type 0 where
  timer ctx_canceled ctx_deadline : WaitEnd

pub record Attempt : Type 0 where
  pub acks : List ℕ
  pub ended : WaitEnd

pub data Waited : Type 0 where
  acked ack_timeout : Waited
  ctx_err : SessionError → Waited

-- `waitForAck`: counters other than the awaited one are consumed.
unfoldable pub wait_for_ack : ℕ → List ℕ → WaitEnd → Waited
wait_for_ack want [] timer = ack_timeout
wait_for_ack want [] ctx_canceled = ctx_err canceled
wait_for_ack want [] ctx_deadline = ctx_err deadline_exceeded
wait_for_ack want (got ∷ acks) ended =
    let rest = wait_for_ack want acks ended in if got == want then acked else rest

-- The waits to come; one that is not listed receives nothing.
abbrev pub next_attempt : List Attempt → Attempt
next_attempt [] = record { acks = []; ended = timer }
next_attempt (a ∷ more) = a

abbrev pub later_attempts : List Attempt → List Attempt
later_attempts [] = []
later_attempts (a ∷ more) = more

-- The loop over the schedule: each wait that times out is followed by a retransmission.
unfoldable pub retransmit :
    Takes → Bytes → ℕ → List ℕ → List Attempt → Session → Session × Option SessionError
retransmit takes pkt want [] world s = (s, some retransmit_exhausted)
retransmit takes pkt want (d ∷ schedule) world s =
    let a = next_attempt world in
    elim (wait_for_ack want a.acks a.ended) [
      | acked ↦ (s, none)
      | ctx_err e ↦ (s, some e)
      | ack_timeout ↦ elim (post takes pkt s).1 [
        | false ↦ ((post takes pkt s).0, some send_failed)
        | true ↦ retransmit takes pkt want schedule (later_attempts world) (post takes pkt s).0
      ]
    ]

-- The first transmission, and the loop behind it.
unfoldable pub send_repeatedly :
    Takes → Bytes → ℕ → List ℕ → List Attempt → Session → Session × Option SessionError
send_repeatedly takes pkt want schedule world s = elim (post takes pkt s).1 [
  | false ↦ ((post takes pkt s).0, some send_failed)
  | true ↦ retransmit takes pkt want schedule world (post takes pkt s).0
]

-- `sendDataAndWaitAck`: stale acknowledgements are drained first.
unfoldable pub send_data_and_wait_ack :
    Takes → Schedules → List Attempt → Bytes → Session → Session × Option SessionError
send_data_and_wait_ack takes sch world payload s =
    let (c, seq) = reserve_out s.counters (length payload) in
    let want = ack_counter_for seq (length payload) in
    let s : Session = record s { ack_ch = []; counters = c } in
    let pkt = packet s p_type_data seq payload in
    let schedule = if s.terminal_mode then sch.data_schedule else sch.auth_schedule in
    send_repeatedly takes pkt want schedule world s

-- The caller's view of the result: n bytes, or the error.
abbrev pub sent_all : ℕ → Session × Option SessionError → Session × Result SessionError ℕ
sent_all n (s, none) = (s, ok n)
sent_all n (s, some e) = (s, err e)

-- `Write`
unfoldable pub write :
    Takes → Schedules → List Attempt → Bytes → Session → Session × Result SessionError ℕ
write takes sch world p s =
    if s.closed
    then (s, err net_closed)
    else if length p == 0
    then (s, ok 0)
    else if ltb (max_packet - header_len) (length p + cp_header_len)
    then (s, err (write_too_large (length p)))
    else elim (encode_control (replicate (cp_header_len + length p) 0) cp_type_plain_data p) [
      | err e ↦ (s, err (bad_control e))
      | ok r ↦ sent_all (length p) (send_data_and_wait_ack takes sch world (take r.0 r.1) s)
    ]

-- The payload that `Resize` builds.
unfoldable pub resize_payload : ℕ → ℕ → Result WireError (ℕ × Bytes)
resize_payload cols rows = do
  n ← encode_control (replicate (2 * (cp_header_len + 2)) 0) cp_type_term_width (le16 cols)
  encode_next n cp_type_term_height (le16 rows)

-- `Resize`
unfoldable pub resize :
    Takes → Schedules → List Attempt → ℕ → ℕ → Session → Session × Option SessionError
resize takes sch world cols rows s =
    if s.closed then (s, some net_closed) else elim (resize_payload cols rows) [
      | err e ↦ (s, some (bad_control e))
      | ok r ↦ send_data_and_wait_ack takes sch world (take r.0 r.1) s
    ]

-- A tick of `keepaliveLoop`, and whether the loop goes on.
unfoldable pub keepalive_tick : Takes → Session → Session × Bool
keepalive_tick takes s =
    if s.closed
    then (s, false)
    else ((post takes (packet s p_type_ack s.counters.out []) s).0, true)
