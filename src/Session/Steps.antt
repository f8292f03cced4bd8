-- ===== src/Session/Steps.antt =====
-- src/internal/mactelnet/session.go and loop.go: the goroutines of a session, as steps that may come in
-- any order, and what holds of every session that they reach.
use mactelnet_proxy.Base.{
  ℕ, suc, ◌+◌, ◌≤◌, ◌≡◌, ◌≢◌, ◌⊎◌, refl, arith, true, false, if◌then◌else◌, ◌==◌, List, [], ◌∷◌,
  ◌++◌, Bytes, byte_at, Mac, some, length,
}
use mactelnet_proxy.Wire.Header.{PType, p_type_data, p_type_end}
use mactelnet_proxy.Wire.Control.{ControlRecord}
use mactelnet_proxy.Seq.Counters.{reserve_out}
use mactelnet_proxy.Session.State.{
  Session, reading, Takes, packet, post, close, new_session, send_session_start,
}
use mactelnet_proxy.Session.Packets.{packet_bytes}
use mactelnet_proxy.Session.Outbound.{keepalive_tick}
use mactelnet_proxy.Session.Inbound.{rx_datagram, ReadEnd, rx_no_datagram, deliver_next, give_up}

-- The receive loop's read and records; the keepalive; Close; the parts of a send, where a send and
-- its retransmissions hand DATA packets to the sender; the login's receives and its last store; and
-- the end of the caller's context.
pub data Step (takes : Takes) : Session → Session → Type 0 where
  on_datagram :
      {s : Session} → (buf : Bytes) → s.rx ≡ reading → Step takes s (rx_datagram takes buf s)
  on_read_end : {s : Session} → (e : ReadEnd) → s.rx ≡ reading → Step takes s (rx_no_datagram e s)
  on_record : {s s' : Session} → deliver_next s ≡ some s' → Step takes s s'
  on_give_up : {s s' : Session} → give_up s ≡ some s' → Step takes s s'
  on_tick : {s : Session} → Step takes s (keepalive_tick takes s).0
  on_close : {s : Session} → Step takes s (close takes s)
  on_start : {s : Session} → Step takes s (send_session_start takes s).0
  on_reserve :
      {s : Session}
      → (n : ℕ) → Step takes s (record s { ack_ch = []; counters = (reserve_out s.counters n).0 })
  on_post :
      {s : Session}
      → (counter : ℕ) (payload : Bytes)
      → Step takes s (post takes (packet s p_type_data counter payload) s).0
  on_ack_taken :
      {s : Session}
      → (a : ℕ) (rest : List ℕ) → s.ack_ch ≡ a ∷ rest
      → Step takes s (record s { ack_ch = rest })
  on_control_taken :
      {s : Session}
      → (r : ControlRecord) (rest : List ControlRecord) → s.control_ch ≡ r ∷ rest
      → Step takes s (record s { control_ch = rest })
  on_logged_in : {s : Session} → Step takes s (record s { terminal_mode = true })
  on_ctx_done : {s : Session} → Step takes s (record s { ctx_done = true })

-- A new session, and what steps make of it.
pub data Reach (takes : Takes) (src dst : Mac) (key : ℕ) : Session → Type 0 where
  start : Reach takes src dst key (new_session src dst key)
  step : {s s' : Session} → Reach takes src dst key s → Step takes s s' → Reach takes src dst key s'

-- The END packets among those sent.
unfoldable pub ends : List Bytes → ℕ
ends [] = 0
ends (p ∷ ps) = if byte_at p 1 == p_type_end then suc (ends ps) else ends ps

pub record IsSound (s : Session) : Type 0 where
  pub acks : length s.ack_ch ≤ 8
  pub controls : length s.control_ch ≤ 16
  pub quiet : (s.terminal_mode ≡ true) ⊎ (s.rx_pipe ≡ [])
  pub released :
      (s.closed ≡ false)
      ⊎ ((s.ctx_done ≡ true)
          × (s.conn_open ≡ false)
          × (s.sender_open ≡ false)
          × (s.pipe_w_open ≡ false))
  pub unended : (s.closed ≡ true) ⊎ (ends s.sent ≡ 0)
  pub one_end : ends s.sent ≤ 1

pub ends-append : (ps : List Bytes) (p : Bytes) → ends (ps ++ p ∷ []) ≡ ends ps + ends (p ∷ [])
unfolding ends
ends-append [] p = omega arith
ends-append (q ∷ ps) p = ground (arith, ends-append ps p)

pub ends-packet :
    (s : Session) (pt : PType) (counter : ℕ) (payload : Bytes)
    → ends (packet s pt counter payload ∷ []) ≡ (if pt == p_type_end then 1 else 0)
unfolding ends
ends-packet s pt counter payload = rw (packet_bytes s pt counter payload) refl

pub post-IsSound :
    (takes : Takes) (s : Session) (pt : PType) (counter : ℕ) (payload : Bytes)
    → pt ≢ p_type_end
    → IsSound s
    → IsSound (post takes (packet s pt counter payload) s).0
unfolding post
post-IsSound takes s pt counter payload ne i =
    let same : ends (s.sent ++ packet s pt counter payload ∷ []) ≡ ends s.sent =
      ground (
        arith,
        ends-append s.sent (packet s pt counter payload),
        ends-packet s pt counter payload,
      ) in
    record {
      acks = i.acks;
      controls = i.controls;
      quiet = i.quiet;
      released = i.released;
      unended = ground (arith, same, i);
      one_end = omega (arith, i.one_end, same);
    }
