-- ===== src/Frame/Delivered.antt =====
-- What buildFrame and rawReceiver.Read of src/internal/mactelnet/conn.go guarantee together.
use mactelnet_proxy.Base.{
  ℕ, ◌+◌, ◌*◌, ◌/◌, ◌%◌, ◌≤◌, ◌<◌, ◌≡◌, ◌≢◌, ◌⊎◌, refl, ◌∙◌, ap, arith, Bool, true, false, List, [],
  ◌∷◌, ◌++◌, Bytes, Mac, mac_eq, mac_eq_refl, mac_at, mac_bytes, be16_at, byte_at, be16, slice,
  length, take, take_all, All, map, not, ◌||◌, ltb, ◌==◌, u16_mod, Option, some, none,
}
use mactelnet_proxy.Wire.Header.{udp_port}
use mactelnet_proxy.Frame.Build.{build_frame, eth_p_ip, eth_p_8021q}
use mactelnet_proxy.Frame.Receive.{
  RawReceiver, keep_if, broadcast, parse_frame, parse_udp, parse_ip, parse_tag, read, recv_frame,
  data_read, Recv,
}
use mactelnet_proxy.Frame.IpHeader.{ip_bytes, udp_bytes, build_frame_bytes, header_checksum}

abbrev tagged_rest : ℕ → ℕ → Bytes → Bytes
tagged_rest vlan ip_id payload =
    be16 eth_p_8021q
    ++ (be16 (vlan % 4096)
        ++ (be16 eth_p_ip
            ++ (ip_bytes ip_id (length payload) (be16 (header_checksum ip_id (length payload)))
                ++ (udp_bytes (length payload) ++ payload))))

abbrev tagged : Mac → Mac → ℕ → ℕ → Bytes → Bytes
tagged src dst vlan ip_id payload =
    mac_bytes dst ++ (mac_bytes src ++ tagged_rest vlan ip_id payload)

module _ (src dst : Mac) (vlan ip_id : ℕ) (payload : Bytes) where
  udp_found :
      length payload + 28 < u16_mod
      → parse_udp (tagged src dst vlan ip_id payload) (length payload + 46) 38 ≡ some payload
  unfolding parse_udp
  udp_found fits = ground (arith, take_all (length payload) payload)

  ip_found :
      length payload + 28 < u16_mod
      → parse_ip (tagged src dst vlan ip_id payload) (length payload + 46) 18 ≡ some payload
  unfolding parse_ip
  ip_found fits = ground (arith, udp_found fits)

  frame_tagged :
      0 < vlan → build_frame src dst vlan ip_id payload ≡ tagged src dst vlan ip_id payload
  frame_tagged pos =
      let not_zero : (vlan == 0) ≡ false = ground arith in
      build_frame_bytes src dst vlan ip_id payload ∙ rw not_zero

  tag_found :
      (r : RawReceiver)
      → r.vlan_id ≡ vlan
      → vlan < 4096
      → length payload + 28 < u16_mod
      → parse_tag r (tagged src dst vlan ip_id payload) (length payload + 46) ≡ some payload
  unfolding parse_tag
  tag_found r e small fits = ground (arith, ip_found fits)

  length-tagged : length (tagged src dst vlan ip_id payload) ≡ length payload + 46
  length-tagged = omega arith

pub length-frame :
    (src dst : Mac) (vlan ip_id : ℕ) (payload : Bytes)
    → 0 < vlan
    → length (build_frame src dst vlan ip_id payload) ≡ length payload + 46
length-frame src dst vlan ip_id payload pos =
    ap length (frame_tagged src dst vlan ip_id payload pos)
    ∙ length-tagged src dst vlan ip_id payload

-- A frame that was built for the receiver's VLAN, 1 to 4095, from another address, to its own or to
-- all, with a payload below 65508 bytes, is parsed to exactly its payload.
pub parse_frame-build_frame :
    (r : RawReceiver) (src dst : Mac) (ip_id : ℕ) (payload : Bytes)
    → 0 < r.vlan_id
    → r.vlan_id < 4096
    → mac_eq src r.own_mac ≡ false
    → (mac_eq dst r.own_mac ≡ true) ⊎ (dst ≡ broadcast)
    → length payload + 28 < u16_mod
    → parse_frame r (build_frame src dst r.vlan_id ip_id payload) ≡ some payload
unfolding parse_frame
parse_frame-build_frame r src dst ip_id payload pos small other to fits =
    rw
      (
        frame_tagged src dst r.vlan_id ip_id payload pos,
        length-tagged src dst r.vlan_id ip_id payload,
      )
      (ground
        (arith, mac_eq_refl broadcast, tag_found src dst r.vlan_id ip_id payload r refl small fits))

-- The receiver takes nothing of a frame that it sent itself, of one addressed to a third party, or
-- of one that carries no 802.1Q tag or another VLAN's.
pub parse_frame_drops :
    (r : RawReceiver) (frame : Bytes)
    → (mac_eq (mac_at frame 6) r.own_mac ≡ true)
      ⊎ ((mac_eq (mac_at frame 0) r.own_mac ≡ false) × (mac_eq (mac_at frame 0) broadcast ≡ false))
      ⊎ (be16_at frame 12 ≢ eth_p_8021q)
      ⊎ (be16_at frame 14 % 4096 ≢ r.vlan_id)
    → parse_frame r frame ≡ none
unfolding parse_frame parse_tag
parse_frame_drops r frame why = ground arith

keep_if-eq-some :
    (b : Bool) (k : Option Bytes) {p : Bytes} → keep_if b k ≡ some p → (b ≡ true) × (k ≡ some p)
keep_if-eq-some true k e = (refl, e)
keep_if-eq-some false k e = cc

-- The payload is what the UDP length field at `udp_off` claims, within the n bytes received.
pub record Claimed (frame payload : Bytes) (n udp_off : ℕ) : Type 0 where
  pub slice_is : payload ≡ slice frame (udp_off + 8) (udp_off + be16_at frame (udp_off + 4))
  pub within : udp_off + be16_at frame (udp_off + 4) ≤ n
  pub port : be16_at frame (udp_off + 2) ≡ udp_port
  pub at_least_header : 8 ≤ be16_at frame (udp_off + 4)

parse_udp-Claimed :
    (frame payload : Bytes) (n udp_off : ℕ)
    → parse_udp frame n udp_off ≡ some payload
    → Claimed frame payload n udp_off
unfolding parse_udp
parse_udp-Claimed frame payload n udp_off e = ground arith

parse_ip-Claimed :
    (frame payload : Bytes) (n off : ℕ)
    → parse_ip frame n off ≡ some payload
    → let udp_off = off + byte_at frame off % 16 * 4 in
      Claimed frame payload n udp_off
      × (byte_at frame off / 16 ≡ 4)
      × (byte_at frame (off + 9) ≡ 17)
      × (off + 20 ≤ udp_off)
unfolding parse_ip
parse_ip-Claimed frame payload n off e =
    ground (arith, parse_udp-Claimed frame payload n (off + byte_at frame off % 16 * 4))

parse_tag_inv :
    (r : RawReceiver) (frame payload : Bytes) (n : ℕ)
    → parse_tag r frame n ≡ some payload
    → (parse_ip frame n 18 ≡ some payload)
      × (be16_at frame 12 ≡ eth_p_8021q)
      × (be16_at frame 14 % 4096 ≡ r.vlan_id)
unfolding parse_tag
parse_tag_inv r frame payload n e = ground arith

parse_frame_inv :
    (r : RawReceiver) (frame payload : Bytes)
    → parse_frame r frame ≡ some payload
    → parse_tag r frame (length frame) ≡ some payload
unfolding parse_frame
parse_frame_inv r frame payload e =
    let own = mac_eq (mac_at frame 6) r.own_mac in
    let mine = mac_eq (mac_at frame 0) r.own_mac || mac_eq (mac_at frame 0) broadcast in
    let tag = parse_tag r frame (length frame) in
    let long =
      keep_if-eq-some (not (ltb (length frame) 14)) (keep_if (not own) (keep_if mine tag)) e in
    (keep_if-eq-some mine tag (keep_if-eq-some (not own) (keep_if mine tag) long.1).1).1

-- What is delivered is the part of the frame that its UDP length field claims, with the right
-- port and within the bytes received, behind an IPv4 header of protocol UDP and of at least 20
-- bytes, behind a tag of the receiver's VLAN.
pub parse_frame-Claimed :
    (r : RawReceiver) (frame payload : Bytes)
    → parse_frame r frame ≡ some payload
    → let udp_off = 18 + byte_at frame 18 % 16 * 4 in
      Claimed frame payload (length frame) udp_off
      × (byte_at frame 18 / 16 ≡ 4)
      × (byte_at frame 27 ≡ 17)
      × (38 ≤ udp_off)
      × (be16_at frame 12 ≡ eth_p_8021q)
      × (be16_at frame 14 % 4096 ≡ r.vlan_id)
parse_frame-Claimed r frame payload e =
    let (i, tpid, vid) =
      parse_tag_inv r frame payload (length frame) (parse_frame_inv r frame payload e) in
    let (c, v, u, h) = parse_ip-Claimed frame payload (length frame) 18 i in (c, v, u, h, tpid, vid)

-- A reader that is open skips the frames that it drops, and hands on the first one that it takes,
-- cut to the caller's buffer.
pub read_skips :
    (r : RawReceiver) (room : ℕ) (skipped : List Bytes) (frame payload : Bytes) (later : List Recv)
    → r.closed ≡ false
    → All (λ f. parse_frame r (take 2048 f) ≡ none) skipped
    → parse_frame r (take 2048 frame) ≡ some payload
    → read r room (map recv_frame skipped ++ recv_frame frame ∷ later)
      ≡ some (data_read (take room payload), later)
unfolding read
read_skips r room [] frame payload later o none_of e = ground arith
read_skips r room (f ∷ fs) frame payload later o none_of e =
    ground (arith, read_skips r room fs frame payload later o none_of.1 e)
