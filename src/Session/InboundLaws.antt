-- ===== src/Session/InboundLaws.antt =====
-- What the receive loop of src/internal/mactelnet/loop.go does with a datagram and with its records.
use mactelnet_proxy.Base.{
  ℕ, ◌+◌, ◌-◌, ◌%◌, ◌≤◌, ◌<◌, ◌≡◌, ◌≢◌, ◌⊎◌, refl, ◌∙◌, ap, arith, true, false, if◌then◌else◌, [],
  ◌∷◌, ◌++◌, append-nil, Bytes, byte_at, be16_at, be32_at, mac_at, length, drop, length-drop,
  u32_mod,
}
use mactelnet_proxy.Wire.Header.{
  Header, to_server, header_len, decode_header, p_type_ack, p_type_data, p_type_end,
}
use mactelnet_proxy.Wire.HeaderRoundTrip.{header_bytes}
use mactelnet_proxy.Wire.Control.{records}
use mactelnet_proxy.Seq.Counters.{Counters, accept_incoming, ack_counter_for}
use mactelnet_proxy.Session.State.{Session, delivering, Takes, header_of, post}
use mactelnet_proxy.Session.Packets.{packet_bytes}
use mactelnet_proxy.Session.Inbound.{process_inbound_data, handle_packet, rx_datagram}

-- The fields of a server's datagram, by their offsets.
abbrev pub type_of : Bytes → ℕ
type_of buf = byte_at buf 1

abbrev pub key_of : Bytes → ℕ
key_of buf = be16_at buf 16

abbrev pub counter_of : Bytes → ℕ
counter_of buf = be32_at buf 18

-- A datagram below 22 bytes, with another session's key, or of a type other than DATA, ACK and END
-- leaves the session as it is.
pub rx_datagram_ignores :
    (takes : Takes) (buf : Bytes) (s : Session)
    → (length buf < header_len)
      ⊎ (key_of buf ≢ s.session_key)
      ⊎ ((type_of buf ≢ p_type_ack) × (type_of buf ≢ p_type_data) × (type_of buf ≢ p_type_end))
    → rx_datagram takes buf s ≡ s
unfolding rx_datagram decode_header handle_packet
rx_datagram_ignores takes buf s h = ground arith

-- The acknowledgement of a datagram.
abbrev pub ack_bytes : Session → Bytes → Bytes
ack_bytes s buf =
    header_bytes (header_of s p_type_ack ((counter_of buf + (length buf - header_len)) % u32_mod))
      to_server

acknowledged :
    (takes : Takes) (h : Header) (payload : Bytes) (s : Session)
    → process_inbound_data takes h payload s ≡ (
        let s' : Session = record s {
          sent =
              s.sent
              ++ header_bytes
                  (header_of s p_type_ack ((h.counter + length payload) % u32_mod))
                  to_server
                ∷ [];
        } in
        let (c, new) = accept_incoming s.counters h.counter in
        if new then record s' { counters = c; rx = delivering (records payload) } else s')
unfolding process_inbound_data post ack_counter_for
acknowledged takes h payload s =
    let counter = (h.counter + length payload) % u32_mod in
    ap
      (λ ack.
        let s' : Session = record s { sent = s.sent ++ ack ∷ [] } in
        let (c, new) = accept_incoming s.counters h.counter in
        if new then record s' { counters = c; rx = delivering (records payload) } else s')
      (packet_bytes s p_type_ack counter [] ∙ append-nil _)

abbrev received : Bytes → Header
received buf = record {
  version = byte_at buf 0;
  p_type = type_of buf;
  src_addr = mac_at buf 2;
  dst_addr = mac_at buf 8;
  session_key = key_of buf;
  counter = counter_of buf;
}

pub old_counter :
    (c : Counters) (seq : ℕ)
    → c.in_seen ≡ true
    → seq ≤ c.inc
    → c.inc ≤ seq + 65_535
    → accept_incoming c seq ≡ (c, false)
unfolding accept_incoming
old_counter c seq seen low high = ground arith

dispatched :
    (takes : Takes) (buf : Bytes) (s : Session)
    → header_len ≤ length buf
    → key_of buf ≡ s.session_key
    → type_of buf ≡ p_type_data
    → rx_datagram takes buf s ≡ process_inbound_data takes (received buf) (drop header_len buf) s
unfolding rx_datagram decode_header handle_packet
dispatched takes buf s long key kind = ground arith

pub rx_datagram-acks :
    (takes : Takes) (buf : Bytes) (s : Session)
    → header_len ≤ length buf
    → key_of buf ≡ s.session_key
    → type_of buf ≡ p_type_data
    → rx_datagram takes buf s ≡ (
        let s' : Session = record s { sent = s.sent ++ ack_bytes s buf ∷ [] } in
        let (c, new) = accept_incoming s.counters (counter_of buf) in
        if new
        then record s' { counters = c; rx = delivering (records (drop header_len buf)) }
        else s')
rx_datagram-acks takes buf s long key kind =
    dispatched takes buf s long key kind
    ∙ acknowledged takes (received buf) (drop header_len buf) s
    ∙ rw (length-drop header_len buf) refl

-- The copies of a packet that was accepted, and packets up to 65535 behind the last one, are acknowledged
-- again, and nothing else about the session changes.
pub rx_datagram_duplicate :
    (takes : Takes) (buf : Bytes) (s : Session)
    → header_len ≤ length buf
    → key_of buf ≡ s.session_key
    → type_of buf ≡ p_type_data
    → s.counters.in_seen ≡ true
    → counter_of buf ≤ s.counters.inc
    → s.counters.inc ≤ counter_of buf + 65_535
    → rx_datagram takes buf s ≡ record s { sent = s.sent ++ ack_bytes s buf ∷ [] }
rx_datagram_duplicate takes buf s long key kind seen low high =
    rx_datagram-acks takes buf s long key kind
    ∙ rw (old_counter s.counters (counter_of buf) seen low high) refl
