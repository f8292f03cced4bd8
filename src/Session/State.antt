-- ===== src/Session/State.antt =====
-- src/internal/mactelnet/session.go: what the goroutines of a session share, and its end. The sender is
-- known by what is handed to it, and by whether it takes its n-th packet.
use mactelnet_proxy.Base.{
  ℕ, ◌+◌, Bool, true, false, if◌then◌else◌, List, [], ◌∷◌, ◌++◌, Bytes, copy_at, Mac, Option, none,
  some, length, replicate,
}
use mactelnet_proxy.Wire.Header.{
  PType, Header, WireError, to_server, header_len, encode, p_type_end, p_type_session_start,
  protocol_version,
}
use mactelnet_proxy.Wire.Control.{ControlRecord}
use mactelnet_proxy.Seq.Counters.{Counters, zero_counters}

pub data SessionError : Type 0 where
  net_closed eof canceled deadline_exceeded retransmit_exhausted send_failed : SessionError
  read_failed : ℕ → SessionError
  write_too_large : ℕ → SessionError
  bad_control : WireError → SessionError
  auth_failed : SessionError
  bad_salt_length : ℕ → SessionError
  ecsrp_failed : SessionError

-- Where the receive loop stands: at its read, inside iterateControl with the records that are
-- still to come, or past its end.
pub data RxPhase : Type 0 where
  reading : RxPhase
  delivering : List ControlRecord → RxPhase
  stopped : RxPhase

-- `rx_pipe` is what was written to rxPipeW so far, and `sent` what was handed to the sender.
pub record Session : Type 0 where
  pub src_mac : Mac
  pub dst_mac : Mac
  pub session_key : ℕ
  pub counters : Counters
  pub ack_ch : List ℕ
  pub control_ch : List ControlRecord
  pub rx_pipe : Bytes
  pub terminal_mode : Bool
  pub ctx_done : Bool
  pub closed : Bool
  pub conn_open : Bool
  pub sender_open : Bool
  pub pipe_w_open : Bool
  pub pipe_r_open : Bool
  pub err_val : Option SessionError
  pub rx : RxPhase
  pub sent : List Bytes

-- `make(chan uint32, 8)` and `make(chan controlPacket, 16)`
abbrev pub ack_ch_cap : ℕ
ack_ch_cap = 8

abbrev pub control_ch_cap : ℕ
control_ch_cap = 16

-- The session that `Open` builds before its handshake.
unfoldable pub new_session : Mac → Mac → ℕ → Session
new_session src dst key = record {
  src_mac = src;
  dst_mac = dst;
  session_key = key;
  counters = zero_counters;
  ack_ch = [];
  control_ch = [];
  rx_pipe = [];
  terminal_mode = false;
  ctx_done = false;
  closed = false;
  conn_open = true;
  sender_open = true;
  pipe_w_open = true;
  pipe_r_open = true;
  err_val = none;
  rx = reading;
  sent = [];
}

-- The literal `header{…}` of a session's packets.
abbrev pub header_of : Session → PType → ℕ → Header
header_of s pt counter = record {
  version = protocol_version;
  p_type = pt;
  src_addr = s.src_mac;
  dst_addr = s.dst_mac;
  session_key = s.session_key;
  counter = counter;
}

-- `copy(pkt[headerLen:], payload)`, behind the header that was encoded.
abbrev pub written : Option (ℕ × Bytes) → Bytes → Bytes → Bytes
written none buf payload = buf
written (some r) buf payload = copy_at r.1 header_len payload

-- A zeroed buffer of the right size, the header encoded into it, and the payload behind it.
unfoldable pub packet : Session → PType → ℕ → Bytes → Bytes
packet s pt counter payload =
    let buf : Bytes = replicate (header_len + length payload) 0 in
    written (encode (header_of s pt counter) buf to_server) buf payload

-- Whether the sender takes its n-th packet.
abbrev pub Takes : Type 0
Takes = ℕ → Bool

-- `s.sender.Send(pkt, s.dstMAC)`: true for a nil error.
unfoldable pub post : Takes → Bytes → Session → Session × Bool
post takes pkt s = (record s { sent = s.sent ++ pkt ∷ [] }, takes (length s.sent))

-- `errVal.CompareAndSwap(nil, err)`
abbrev pub keep_first : Option SessionError → Option SessionError → Option SessionError
keep_first (some e) new = some e
keep_first none new = new

-- `fail`
unfoldable pub fail : Option SessionError → Session → Session
fail e s =
    let s : Session = record s { err_val = keep_first s.err_val e } in
    if s.closed then s else record s {
      closed = true;
      ctx_done = true;
      conn_open = false;
      sender_open = false;
      pipe_w_open = false;
    }

-- `Close`, up to its wait for the receive loop.
unfoldable pub close : Takes → Session → Session
close takes s = if s.closed then s else record (post takes (packet s p_type_end 0 []) s).0 {
  closed = true;
  ctx_done = true;
  conn_open = false;
  sender_open = false;
  pipe_w_open = false;
  pipe_r_open = false;
}

-- `sendSessionStart`
unfoldable pub send_session_start : Takes → Session → Session × Bool
send_session_start takes s = post takes (packet s p_type_session_start 0 []) s
