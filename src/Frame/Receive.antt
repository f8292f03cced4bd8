-- ===== src/Frame/Receive.antt =====
-- src/internal/mactelnet/conn.go: rawReceiver.Read, which filters and takes apart one frame.
use mactelnet_proxy.Base.{
  ℕ, ◌+◌, ◌*◌, ◌/◌, ◌%◌, Bool, true, false, not, ◌||◌, List, [], ◌∷◌, Bytes, Mac, mac_at, mac_eq,
  be16_at, byte_at, slice, take, length, if◌then◌else◌, ltb, ◌==◌, Option, none, some,
}
use mactelnet_proxy.Wire.Header.{udp_port}
use mactelnet_proxy.Frame.Build.{eth_p_ip, eth_p_8021q}

pub record RawReceiver : Type 0 where
  pub vlan_id : ℕ
  pub own_mac : Mac
  pub closed : Bool

abbrev pub broadcast : Mac
broadcast = record { m0 = 255; m1 = 255; m2 = 255; m3 = 255; m4 = 255; m5 = 255 }

-- `none` is a `continue`: the frame is dropped.
abbrev pub keep_if : Bool → Option Bytes → Option Bytes
keep_if true k = k
keep_if false k = none

-- From the UDP header on.
unfoldable pub parse_udp : Bytes → ℕ → ℕ → Option Bytes
parse_udp frame n udp_off =
    let len = be16_at frame (udp_off + 4) in
    keep_if (not (ltb n (udp_off + 8))) (
      keep_if (be16_at frame (udp_off + 2) == udp_port) (
        keep_if (not (ltb len 8 || ltb n (udp_off + len)))
          (some (slice frame (udp_off + 8) (udp_off + len)))))

-- From the IP header on. `ipHdr[0]>>4` is the quotient by 16, and `&0x0f` the remainder.
unfoldable pub parse_ip : Bytes → ℕ → ℕ → Option Bytes
parse_ip frame n off =
    let ihl = byte_at frame off % 16 * 4 in
    keep_if (not (ltb n (off + 20))) (
      keep_if (byte_at frame off / 16 == 4) (
        keep_if (not (ltb ihl 20 || ltb n (off + ihl)))
          (keep_if (byte_at frame (off + 9) == 17) (parse_udp frame n (off + ihl)))))

-- The tag: 802.1Q with the configured VLAN, and IP inside.
unfoldable pub parse_tag : RawReceiver → Bytes → ℕ → Option Bytes
parse_tag r frame n = keep_if (be16_at frame 12 == eth_p_8021q) (
    keep_if (not (ltb n 18)) (
      keep_if (be16_at frame 14 % 4096 == r.vlan_id)
        (keep_if (be16_at frame 16 == eth_p_ip) (parse_ip frame n 18))))

-- One frame of n bytes in the buffer.
unfoldable pub parse_frame : RawReceiver → Bytes → Option Bytes
parse_frame r frame =
    let n = length frame in
    keep_if (not (ltb n 14)) (
      keep_if (not (mac_eq (mac_at frame 6) r.own_mac)) (
        keep_if (mac_eq (mac_at frame 0) r.own_mac || mac_eq (mac_at frame 0) broadcast)
          (parse_tag r frame n)))

-- What `Recvfrom` may return, and what the reader sees of it.
pub data Recv : Type 0 where
  recv_frame : Bytes → Recv
  recv_again recv_error : Recv

pub data ReadResult : Type 0 where
  data_read : Bytes → ReadResult
  deadline_exceeded net_closed read_error : ReadResult

-- `rawReceiver.Read` into a buffer of `room` bytes, over what the socket returns: frames are cut at
-- 2048 bytes by the receive buffer. `none` is a read that still waits.
unfoldable pub read : RawReceiver → ℕ → List Recv → Option (ReadResult × List Recv)
read r room [] = if r.closed then some (net_closed, []) else none
read r room (recv_again ∷ es) =
    if r.closed then some (net_closed, recv_again ∷ es) else some (deadline_exceeded, es)
read r room (recv_error ∷ es) =
    if r.closed then some (net_closed, recv_error ∷ es) else some (read_error, es)
read r room (recv_frame f ∷ es) =
    let rest = read r room es in
    if r.closed then some (net_closed, recv_frame f ∷ es) else elim (parse_frame r (take 2048 f)) [
      | none ↦ rest
      | some payload ↦ some (data_read (take room payload), es)
    ]
