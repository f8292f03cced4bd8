-- ===== src/Session/Examples.antt =====
-- Runs of a session of src/internal/mactelnet on concrete packets.
use mactelnet_proxy.Base.{
  ℕ, ◌+◌, ◌≤◌, ◌≡◌, refl, arith, inl, true, false, List, [], ◌∷◌, ◌++◌, Bytes, Mac, none,
}
use mactelnet_proxy.Wire.Header.{to_client, cp_type_plain_data}
use mactelnet_proxy.Wire.HeaderRoundTrip.{header_bytes}
use mactelnet_proxy.Wire.Control.{ControlRecord, records}
use mactelnet_proxy.Wire.Records.{wire}
use mactelnet_proxy.Seq.Counters.{Counters, zero_counters}
use mactelnet_proxy.Seq.Schedule.{Schedules}
use mactelnet_proxy.Session.State.{Session, new_session, reading, Takes}
use mactelnet_proxy.Session.Inbound.{rx_datagram}
use mactelnet_proxy.Session.InboundLaws.{ack_bytes, rx_datagram_ignores, rx_datagram_duplicate}
use mactelnet_proxy.Session.Outbound.{
  Attempt, timer, send_data_and_wait_ack, sent_all, write, resize,
}
use mactelnet_proxy.Session.Retransmission.{Outcome, HeardIn, sent_times}
use mactelnet_proxy.Session.OutboundLaws.{
  data_bytes, reserved, send_data_and_wait_ack-sent, send_data_and_wait_ack-Outcome,
}
use mactelnet_proxy.Session.WriteLaws.{size_records, write_lem, resize_lem}

abbrev pub client : Mac
client = record { m0 = 2; m1 = 1; m2 = 2; m3 = 3; m4 = 4; m5 = 5 }

abbrev pub router : Mac
router = record { m0 = 0x4c; m1 = 0x5e; m2 = 0x0c; m3 = 1; m4 = 2; m5 = 3 }

abbrev pub fresh : Session
fresh = new_session client router 0xbeef

-- A session that has received 100 bytes and is logged in.
abbrev logged_in : Session
logged_in = record {
  src_mac = client;
  dst_mac = router;
  session_key = 0xbeef;
  counters = record { out = 40; inc = 100; in_seen = true };
  ack_ch = [];
  control_ch = [];
  rx_pipe = [];
  terminal_mode = true;
  ctx_done = false;
  closed = false;
  conn_open = true;
  sender_open = true;
  pipe_w_open = true;
  pipe_r_open = true;
  err_val = none;
  rx = reading;
  sent = [];
}

-- A DATA packet of the router, with a prompt.
abbrev prompt : ℕ → Bytes
prompt counter =
    header_bytes
      (record {
        version = 1;
        p_type = 1;
        src_addr = router;
        dst_addr = client;
        session_key = 0xbeef;
        counter = counter;
      })
      to_client
    ++ (b'>' ∷ [])

abbrev pub takes_all : Takes
takes_all n = true

rx_datagram_ignores_test : rx_datagram takes_all (1 ∷ 2 ∷ []) logged_in ≡ logged_in
rx_datagram_ignores_test = rx_datagram_ignores takes_all (1 ∷ 2 ∷ []) logged_in (inl (omega arith))

rx_datagram_duplicate_example :
    rx_datagram takes_all (prompt 100) logged_in
    ≡ record logged_in { sent = ack_bytes logged_in (prompt 100) ∷ [] }
rx_datagram_duplicate_example =
    rx_datagram_duplicate takes_all (prompt 100) logged_in (omega arith) refl refl refl
      (omega arith) (omega arith)

-- A prompt that arrives twice, and a greeting.
abbrev pub texts : List (Bytes × ℕ)
texts = (b'>' ∷ [], 1) ∷ (b'h' ∷ b'i' ∷ [], 0) ∷ []

abbrev pub just_open : Session
just_open = record logged_in { counters = zero_counters }

abbrev mixed : List ControlRecord
mixed =
    record { cp_type = 7; body = 1 ∷ [] }
    ∷ record { cp_type = cp_type_plain_data; body = b'$' ∷ [] }
    ∷ []

abbrev pub schedules : Schedules
schedules = record { auth_schedule = 15 ∷ 20 ∷ 30 ∷ []; data_schedule = 15 ∷ 20 ∷ [] }

-- Nothing, then a stale acknowledgement and the right one.
abbrev waits : List Attempt
waits = record { acks = []; ended = timer } ∷ record { acks = 40 ∷ 42 ∷ []; ended = timer } ∷ []

send_data_and_wait_ack-sent_example :
    (k : ℕ) × (1 ≤ k)
    × (k ≤ 1 + 2)
    × ((send_data_and_wait_ack takes_all schedules waits (108 ∷ 115 ∷ []) logged_in).0
        ≡ sent_times k (data_bytes logged_in (108 ∷ 115 ∷ [])) (reserved 2 logged_in))
send_data_and_wait_ack-sent_example =
    send_data_and_wait_ack-sent takes_all schedules waits (108 ∷ 115 ∷ []) logged_in

send_data_and_wait_ack-Outcome_example :
    Outcome
      (HeardIn 42 (15 ∷ 20 ∷ []) waits)
      (send_data_and_wait_ack takes_all schedules waits (108 ∷ 115 ∷ []) logged_in).1
send_data_and_wait_ack-Outcome_example =
    send_data_and_wait_ack-Outcome takes_all schedules waits (108 ∷ 115 ∷ []) logged_in (λ n. refl)
      (refl, (refl, tt))

write_lem_test :
    write takes_all schedules waits (108 ∷ []) logged_in
    ≡ sent_all 1 (send_data_and_wait_ack takes_all schedules waits (108 ∷ []) logged_in)
write_lem_test = write_lem takes_all schedules waits (108 ∷ []) logged_in

resize_lem_test :
    (records (wire (size_records 80 24)) ≡ size_records 80 24)
    × (resize takes_all schedules waits 80 24 logged_in
        ≡ send_data_and_wait_ack takes_all schedules waits (wire (size_records 80 24)) logged_in)
resize_lem_test = resize_lem takes_all schedules waits 80 24 logged_in
