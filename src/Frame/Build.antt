-- ===== src/Frame/Build.antt =====
-- src/internal/mactelnet/conn.go: buildFrame.
use mactelnet_proxy.Base.{
  ℕ, ◌+◌, ◌%◌, [], ◌∷◌, Bytes, Mac, mac_bytes, be16, copy_at, slice, drop, length, replicate,
  if◌then◌else◌, ◌==◌, u16_mod,
}
use mactelnet_proxy.Wire.Header.{udp_port}
use mactelnet_proxy.Frame.Checksum.{internet_checksum}

abbrev pub eth_p_ip : ℕ
eth_p_ip = 0x0800

abbrev pub eth_p_8021q : ℕ
eth_p_8021q = 0x8100

abbrev pub eth_len : ℕ
eth_len = 14

abbrev pub dot1q_len : ℕ
dot1q_len = 4

abbrev pub ip_len : ℕ
ip_len = 20

abbrev pub udp_len : ℕ
udp_len = 8

-- The Ethernet header with its optional tag; `vlanID & 0x0fff` is the remainder by 4096.
unfoldable pub put_ethernet : Bytes → Mac → Mac → ℕ → Bytes
put_ethernet pkt src_mac dst_mac vlan_id =
    let p = copy_at pkt 0 (mac_bytes dst_mac) in
    let p = copy_at p 6 (mac_bytes src_mac) in
    if vlan_id == 0
    then copy_at p 12 (be16 eth_p_ip)
    else (let q = copy_at p 12 (be16 eth_p_8021q) in
        let q = copy_at q 14 (be16 (vlan_id % 4096)) in copy_at q 16 (be16 eth_p_ip))

-- The IP header, over the zeroed rest of the frame.
unfoldable pub put_ip : Bytes → ℕ → ℕ → Bytes
put_ip ip ip_id payload_len =
    let p = copy_at ip 0 (0x45 ∷ 0x00 ∷ []) in
    let p = copy_at p 2 (be16 ((ip_len + udp_len + payload_len) % u16_mod)) in
    let p = copy_at p 4 (be16 ip_id) in
    let p = copy_at p 6 (be16 0) in
    let p = copy_at p 8 (64 ∷ 17 ∷ []) in
    let p = copy_at p 16 (0xff ∷ 0xff ∷ 0xff ∷ 0xff ∷ []) in
    copy_at p 10 (be16 (internet_checksum (slice p 0 ip_len)))

unfoldable pub put_udp : Bytes → Bytes → Bytes
put_udp udp payload =
    let p = copy_at udp 0 (be16 udp_port) in
    let p = copy_at p 2 (be16 udp_port) in
    let p = copy_at p 4 (be16 ((udp_len + length payload) % u16_mod)) in copy_at p udp_len payload

abbrev pub tag_len : ℕ → ℕ
tag_len vlan_id = if vlan_id == 0 then 0 else dot1q_len

-- `buildFrame`. `ip` and `udp` are slices of `pkt`, so what is written to them is written back.
unfoldable pub build_frame : Mac → Mac → ℕ → ℕ → Bytes → Bytes
unfolding put_ethernet put_ip put_udp
build_frame src_mac dst_mac vlan_id ip_id payload =
    let total = eth_len + tag_len vlan_id + ip_len + udp_len + length payload in
    let pkt = put_ethernet (replicate total 0) src_mac dst_mac vlan_id in
    let ip_off = eth_len + tag_len vlan_id in
    let pkt = copy_at pkt ip_off (put_ip (drop ip_off pkt) ip_id (length payload)) in
    let udp_off = ip_off + ip_len in copy_at pkt udp_off (put_udp (drop udp_off pkt) payload)
