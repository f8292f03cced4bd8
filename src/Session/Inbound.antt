-- ===== src/Session/Inbound.antt =====
-- src/internal/mactelnet/loop.go: the receive loop. A datagram is one step; the records of its payload
-- are a step each, since another goroutine may run between two of them.
use mactelnet_proxy.Base.{
  ℕ, false, not, ◌&&◌, if◌then◌else◌, ltb, ◌==◌, List, [], ◌∷◌, ◌++◌, Bytes, Option, none, some, ok,
  err, length,
}
use mactelnet_proxy.Wire.Header.{
  Header, to_client, header_len, decode_header, p_type_ack, p_type_data, p_type_end,
  cp_type_plain_data,
}
use mactelnet_proxy.Wire.Control.{ControlRecord, records}
use mactelnet_proxy.Seq.Counters.{accept_incoming, ack_counter_for}
use mactelnet_proxy.Session.State.{
  Session, reading, delivering, stopped, eof, read_failed, Takes, packet, post, fail, ack_ch_cap,
  control_ch_cap,
}

-- `processInboundData` up to its call of iterateControl, whose callbacks are the steps below.
unfoldable pub process_inbound_data : Takes → Header → Bytes → Session → Session
process_inbound_data takes h payload s =
    let ack = packet s p_type_ack (ack_counter_for h.counter (length payload)) [] in
    let s : Session = (post takes ack s).0 in
    let (c, new) = accept_incoming s.counters h.counter in
    if new then record s { counters = c; rx = delivering (records payload) } else s

-- `case s.ackCh <- h.Counter: default:`
unfoldable pub offer_ack : ℕ → Session → Session
offer_ack counter s =
    if ltb (length s.ack_ch) ack_ch_cap then record s { ack_ch = s.ack_ch ++ counter ∷ [] } else s

-- The switch of `rxLoop`. At its end the deferred calls close the pipe.
unfoldable pub handle_packet : Takes → Header → Bytes → Session → Session
handle_packet takes h payload s =
    if h.p_type == p_type_ack
    then offer_ack h.counter s
    else if h.p_type == p_type_data
    then process_inbound_data takes h payload s
    else if h.p_type == p_type_end
    then record (fail (some eof) s) { rx = stopped; pipe_w_open = false }
    else s

-- A round of `rxLoop` that read a datagram.
unfoldable pub rx_datagram : Takes → Bytes → Session → Session
rx_datagram takes buf s =
    if ltb (length buf) header_len then s else elim (decode_header buf to_client) [
      | err e ↦ s
      | ok r ↦ if not (r.0.session_key == s.session_key) then s else handle_packet takes r.0 r.1 s
    ]

-- The other rounds: the context is done, or the read failed.
pub data ReadEnd : Type 0 where
  ctx_was_done timed_out conn_closed : ReadEnd
  other_error : ℕ → ReadEnd

unfoldable pub rx_no_datagram : ReadEnd → Session → Session
rx_no_datagram ctx_was_done s = record s { rx = stopped; pipe_w_open = false }
rx_no_datagram timed_out s = s
rx_no_datagram conn_closed s = record s { rx = stopped; pipe_w_open = false }
rx_no_datagram (other_error e) s = record (fail (some (read_failed e)) s) {
  rx = stopped;
  pipe_w_open = false;
}

-- A write to the pipe reaches its reader unless an end is closed.
unfoldable pub pipe_write : Bytes → Session → Session
pipe_write bs s =
    if s.pipe_w_open && s.pipe_r_open then record s { rx_pipe = s.rx_pipe ++ bs } else s

-- One callback of iterateControl and the records left: `none` waits for room in controlCh.
unfoldable pub deliver : ControlRecord → List ControlRecord → Session → Option Session
deliver r rest s =
    if r.cp_type == cp_type_plain_data
    then some (record (if s.terminal_mode then pipe_write r.body s else s) { rx = delivering rest })
    else if ltb (length s.control_ch) control_ch_cap
    then some (record s { control_ch = s.control_ch ++ r ∷ []; rx = delivering rest })
    else none

-- The next step of iterateControl's loop.
unfoldable pub deliver_next : Session → Option Session
deliver_next s = elim s.rx [
  | reading ↦ none
  | stopped ↦ none
  | delivering rs ↦ elim rs [
    | [] ↦ some (record s { rx = reading })
    | ◌∷◌ r rest ↦ deliver r rest s
  ]
]

-- `case <-s.ctx.Done(): return false`, for a record that is not plain data.
unfoldable pub give_up : Session → Option Session
give_up s = elim s.rx [
  | reading ↦ none
  | stopped ↦ none
  | delivering rs ↦ elim rs [
    | [] ↦ none
    | ◌∷◌ r rest ↦
        if s.ctx_done && not (r.cp_type == cp_type_plain_data)
        then some (record s { rx = reading })
        else none
  ]
]
