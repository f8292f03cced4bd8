-- ===== src/Session/Rounds.antt =====
-- The rounds of rxLoop of src/internal/mactelnet/loop.go over a raw socket, by the datagrams that it brings.
use mactelnet_proxy.Base.{
  ℕ, zero, suc, ◌≤◌, ◌<◌, ◌≡◌, ◌⊎◌, inl, inr, refl, ◌∙◌, ap, arith, true, false, List, [], ◌∷◌,
  Bytes, Mac, mac_eq, Option, none, some, length, take, take_all, Bool-cases,
}
use mactelnet_proxy.Wire.Header.{max_packet}
use mactelnet_proxy.Frame.Build.{build_frame}
use mactelnet_proxy.Frame.Receive.{
  RawReceiver, broadcast, parse_frame, Recv, recv_frame, recv_again, ReadResult, read, data_read,
  deadline_exceeded,
}
use mactelnet_proxy.Frame.Delivered.{length-frame, parse_frame-build_frame}
use mactelnet_proxy.Session.State.{Session, Takes, reading, delivering, stopped}
use mactelnet_proxy.Session.Stream.{receive, and_then}
use mactelnet_proxy.Session.Loop.{unless_done, go_on, after_read, rx_loop}

-- What a socket returns while some datagrams arrive, each in a frame to the receiver or to all, among
-- timeouts and any frames that the receiver does not take.
pub data Arrive (r : RawReceiver) : List Recv → List Bytes → Type 0 where
  nothing : Arrive r [] []
  timed_out : {es : List Recv} {ds : List Bytes} → Arrive r es ds → Arrive r (recv_again ∷ es) ds
  ignored :
      {es : List Recv} {ds : List Bytes} (frame : Bytes)
      → parse_frame r (take 2048 frame) ≡ none
      → Arrive r es ds
      → Arrive r (recv_frame frame ∷ es) ds
  carried :
      {es : List Recv} {ds : List Bytes} (src dst : Mac) (ip_id : ℕ) (d : Bytes)
      → mac_eq src r.own_mac ≡ false
      → (mac_eq dst r.own_mac ≡ true) ⊎ (dst ≡ broadcast)
      → length d ≤ max_packet
      → Arrive r es ds
      → Arrive r (recv_frame (build_frame src dst r.vlan_id ip_id d) ∷ es) (d ∷ ds)

-- The rounds that datagrams alone cause.
abbrev pub receive_all : Takes → List Bytes → Session → Option Session
receive_all takes [] s = unless_done s (some s)
receive_all takes (d ∷ ds) s =
    unless_done s (and_then (receive takes d s) (go_on (receive_all takes ds)))

unless_done_twice :
    (takes : Takes) (ds : List Bytes) (s : Session)
    → unless_done s (receive_all takes ds s) ≡ receive_all takes ds s
unless_done_twice takes [] s = elim (Bool-cases s.ctx_done) [ inl e ↦ rw e | inr e ↦ rw e ]
unless_done_twice takes (d ∷ ds) s = elim (Bool-cases s.ctx_done) [ inl e ↦ rw e | inr e ↦ rw e ]

read_waits : (r : RawReceiver) (room : ℕ) → r.closed ≡ false → read r room [] ≡ none
unfolding read
read_waits r room o = rw o refl

read_again :
    (r : RawReceiver) (room : ℕ) (es : List Recv)
    → r.closed ≡ false
    → read r room (recv_again ∷ es) ≡ some (deadline_exceeded, es)
unfolding read
read_again r room es o = rw o refl

read_dropped :
    (r : RawReceiver) (room : ℕ) (f : Bytes) (es : List Recv)
    → r.closed ≡ false
    → parse_frame r (take 2048 f) ≡ none
    → read r room (recv_frame f ∷ es) ≡ read r room es
unfolding read
read_dropped r room f es o e = ground arith

read_taken :
    (r : RawReceiver) (room : ℕ) (f d : Bytes) (es : List Recv)
    → r.closed ≡ false
    → parse_frame r (take 2048 f) ≡ some d
    → length d ≤ room
    → read r room (recv_frame f ∷ es) ≡ some (data_read d, es)
unfolding read
read_taken r room f d es o e fits = ground (arith, take_all room d fits)

module _ (takes : Takes) (r : RawReceiver) (errno : ℕ) (open' : r.closed ≡ false)
    (tagged : 0 < r.vlan_id) (vid : r.vlan_id < 4096) where
  go_on-ap :
      (f g : Session → Option Session)
      → ((s : Session) → f s ≡ g s)
      → (o : Option Session) → and_then o (go_on f) ≡ and_then o (go_on g)
  go_on-ap f g e none = refl
  go_on-ap f g e (some s) =
      elim s.rx as (λ x. go_on f (record s { rx = x }) ≡ go_on g (record s { rx = x })) [
        | reading ↦ e (record s { rx = reading })
        | delivering rs ↦ e (record s { rx = delivering rs })
        | stopped ↦ refl
      ]

  -- A built frame is not cut by the receive buffer, and its datagram not by that of the loop.
  read_carried :
      (src dst : Mac) (ip_id : ℕ) (d : Bytes) (es : List Recv)
      → mac_eq src r.own_mac ≡ false
      → (mac_eq dst r.own_mac ≡ true) ⊎ (dst ≡ broadcast)
      → length d ≤ max_packet
      → read r max_packet (recv_frame (build_frame src dst r.vlan_id ip_id d) ∷ es)
        ≡ some (data_read d, es)
  read_carried src dst ip_id d es other to fits =
      let frame = build_frame src dst r.vlan_id ip_id d in
      read_taken r max_packet frame d es open'
        (ap (parse_frame r)
            (take_all 2048 frame (omega (arith, length-frame src dst r.vlan_id ip_id d tagged)))
          ∙ parse_frame-build_frame r src dst ip_id d tagged vid other to (omega arith))
        fits

  abbrev round : ℕ → Session → Option (ReadResult × List Recv) → Option Session
  round n s o = unless_done s (after_read takes errno (rx_loop takes r errno n) s o)

  -- The loop sees only the datagrams, with a round for each and for each timeout.
  pub rx_loop_lem :
      (es : List Recv) (ds : List Bytes) (n : ℕ) (s : Session)
      → Arrive r es ds
      → length es < n
      → rx_loop takes r errno n es s ≡ receive_all takes ds s
  unfolding rx_loop
  rx_loop_lem es ds zero s a h = absurd (omega arith)
  rx_loop_lem _ _ (suc n) s nothing h = ap (round n s) (read_waits r max_packet open')
  rx_loop_lem _ _ (suc n) s (timed_out {es} {ds} a) h =
      ap (round n s) (read_again r max_packet es open')
      ∙ ap (unless_done s) (rx_loop_lem es ds n s a (omega arith))
      ∙ unless_done_twice takes ds s
  rx_loop_lem _ _ (suc n) s (ignored {es} {ds} f e a) h =
      ap (round n s) (read_dropped r max_packet f es open' e)
      ∙ rx_loop_lem es ds (suc n) s a (omega arith)
  rx_loop_lem _ _ (suc n) s (carried {es} {ds} src dst ip_id d other to fits a) h =
      let later : (t : Session) → rx_loop takes r errno n es t ≡ receive_all takes ds t =
        λ t. rx_loop_lem es ds n t a (omega arith) in
      ap (round n s) (read_carried src dst ip_id d es other to fits)
      ∙ ap (unless_done s) (go_on-ap _ _ later (receive takes d s))
