-- ===== src/Session/Stream.antt =====
-- The terminal output that a session of src/internal/mactelnet hands to its reader, for a stream of
-- DATA packets of which any may arrive several times.
use mactelnet_proxy.Base.{
  ℕ, zero, suc, ◌+◌, ◌%◌, ◌≤◌, ◌<◌, ◌≡◌, refl, ◌∙◌, ap, arith, Bool, true, false, if◌then◌else◌,
  List, [], ◌∷◌, ◌++◌, append-nil, Bytes, Option, none, some, length, u16_mod, u32_mod,
}
use mathlib.Core.Path.{ap₂}
use mactelnet_proxy.Wire.Header.{to_client, p_type_data, cp_type_plain_data}
use mactelnet_proxy.Wire.HeaderRoundTrip.{header_bytes}
use mactelnet_proxy.Wire.Control.{ControlRecord, is_plain, records}
use mactelnet_proxy.Wire.Records.{records_plain}
use mactelnet_proxy.Seq.Counters.{Counters, accept_incoming}
use mactelnet_proxy.Seq.Delivery.{IsSize}
use mactelnet_proxy.Session.State.{Session, reading, delivering, stopped, Takes}
use mactelnet_proxy.Session.Inbound.{rx_datagram}
use mactelnet_proxy.Session.InboundLaws.{key_of, counter_of, ack_bytes, rx_datagram-acks}
use mactelnet_proxy.Session.DeliveryLaws.{deliver_all, deliver_all_lem}

-- A DATA packet of the peer.
abbrev pub data_packet : Session → ℕ → Bytes → Bytes
data_packet s counter payload =
    header_bytes
      (record {
        version = 1;
        p_type = p_type_data;
        src_addr = s.dst_mac;
        dst_addr = s.src_mac;
        session_key = s.session_key;
        counter = counter;
      })
      to_client
    ++ payload

-- What follows the acknowledgement, by the counters' answer.
abbrev on_accept : Counters × Bool → Session → Bytes → Session
on_accept (c, new) s p = if new then record s { counters = c; rx = delivering (records p) } else s

abbrev pub on_phase : Session → Option Session
on_phase s = elim s.rx [ reading ↦ some s | stopped ↦ some s | delivering rs ↦ deliver_all rs s ]

-- One round of the receive loop with the records of its packet; `none` if it waits.
abbrev pub receive : Takes → Bytes → Session → Option Session
receive takes buf s = on_phase (rx_datagram takes buf s)

abbrev pub and_then : Option Session → (Session → Option Session) → Option Session
and_then none f = none
and_then (some s) f = f s

-- A packet that arrives k times.
abbrev pub receive_times : Takes → Bytes → ℕ → Session → Option Session
receive_times takes buf zero s = some s
receive_times takes buf (suc k) s = and_then (receive takes buf s) (receive_times takes buf k)

-- Payloads, each sent once and repeated as often as its number says, with the peer's counter.
abbrev pub receive_stream : Takes → ℕ → List (Bytes × ℕ) → Session → Option Session
receive_stream takes out [] s = some s
receive_stream takes out ((p, k) ∷ ps) s =
    and_then (receive_times takes (data_packet s out p) (suc k) s)
      (receive_stream takes ((out + length p) % u32_mod) ps)

abbrev pub output : List (Bytes × ℕ) → Bytes
output [] = []
output ((p, k) ∷ ps) = p ++ output ps

-- Text of at least a byte that does not look like a control record.
abbrev pub IsText : Bytes × ℕ → Type 0
IsText p = IsSize (length p.0, 0) × (is_plain p.0 ≡ true)

-- Logged in, at its read, with its pipe open.
abbrev pub IsOpen : Session → Type 0
IsOpen s =
    (s.terminal_mode ≡ true)
    × (s.pipe_w_open ≡ true)
    × (s.pipe_r_open ≡ true)
    × (length s.control_ch ≤ 16)
    × (s.session_key < u16_mod)

-- The session `s` after some packets.
abbrev pub after : Session → Counters → Bytes → List Bytes → Session
after s c pipe sent = record s { counters = c; rx_pipe = pipe; sent = sent; rx = reading }

text_record :
    (p : Bytes) (k : ℕ)
    → IsText (p, k)
    → records p ≡ record { cp_type = cp_type_plain_data; body = p } ∷ []
text_record [] k t = absurd (omega (arith, t.0.0))
text_record (b ∷ bs) k t = records_plain b bs t.1

abbrev pub acked : Session → ℕ → Bytes → List Bytes → List Bytes
acked s out p sent = sent ++ ack_bytes s (data_packet s out p) ∷ []

abbrev pub sender : ℕ → Counters
sender out = record { out = out; inc = 0; in_seen = false }

abbrev delivering_to : Session → List ControlRecord → Session
delivering_to s rs = record s { rx = delivering rs }

module _ (takes : Takes) (s : Session) (open' : IsOpen s) where
  arrives :
      (c : Counters) (pipe : Bytes) (sent : List Bytes) (out : ℕ) (p : Bytes)
      → out < u32_mod
      → rx_datagram takes (data_packet s out p) (after s c pipe sent)
        ≡ on_accept (accept_incoming c out) (after s c pipe (acked s out p sent)) p
  arrives c pipe sent out p h =
      let key : key_of (data_packet s out p) ≡ s.session_key = omega (arith, open'.4) in
      let counter : counter_of (data_packet s out p) ≡ out = omega arith in
      rx_datagram-acks takes (data_packet s out p) (after s c pipe sent) (omega arith) key refl
      ∙ ap (λ n. on_accept (accept_incoming c n) (after s c pipe (acked s out p sent)) p) counter

  -- A new packet's text goes to the pipe.
  pub first_copy :
      (c : Counters) (pipe : Bytes) (sent : List Bytes) (out : ℕ) (p : Bytes) (k : ℕ)
      → out < u32_mod
      → IsText (p, k)
      → accept_incoming c out ≡ (record c { in_seen = true; inc = out }, true)
      → receive takes (data_packet s out p) (after s c pipe sent)
        ≡ some (after s (record c { in_seen = true; inc = out }) (pipe ++ p) (acked s out p sent))
  first_copy c pipe sent out p k h t e =
      let c' : Counters = record c { in_seen = true; inc = out } in
      let s' = after s c' pipe (acked s out p sent) in
      let rec : ControlRecord = record { cp_type = cp_type_plain_data; body = p } in
      ap on_phase (
        arrives c pipe sent out p h
        ∙ ap (λ r. on_accept r (after s c pipe (acked s out p sent)) p) e
        ∙ ap (λ rs. delivering_to s' rs) (text_record p k t))
      ∙ deliver_all_lem (rec ∷ []) s' open'.1 open'.2 (omega (arith, open'.3))
      ∙ ap₂
          (λ bs ctl.
            some (record (after s c' (pipe ++ bs) (acked s out p sent)) { control_ch = ctl }))
          (rw open'.0 (append-nil p)) (append-nil s.control_ch)

  -- A copy changes nothing but what was sent.
  pub next_copy :
      (c : Counters) (pipe : Bytes) (sent : List Bytes) (out : ℕ) (p : Bytes)
      → out < u32_mod
      → accept_incoming c out ≡ (c, false)
      → receive takes (data_packet s out p) (after s c pipe sent)
        ≡ some (after s c pipe (acked s out p sent))
  next_copy c pipe sent out p h e = ap on_phase (
      arrives c pipe sent out p h ∙ ap (λ r. on_accept r (after s c pipe (acked s out p sent)) p) e)
