-- ===== src/Frame/Examples.antt =====
-- Runs of the raw sender's frames and the raw receiver of src/internal/mactelnet/conn.go.
use mactelnet_proxy.Base.{
  ◌+◌, ◌*◌, ◌/◌, ◌%◌, ◌≤◌, ◌≡◌, refl, inl, arith, [], ◌∷◌, ◌++◌, Bytes, Mac, mac_eq, byte_at,
  be16_at, length, some, none, false, map, ok, err,
}
use mactelnet_proxy.Text.Strings.{codes}
use mactelnet_proxy.Mndp.Discover.{format_mac}
use mactelnet_proxy.Frame.MacText.{
  wrong_size, bad_mac, parse_mac, net_parse_mac, hex_groups, hex_pairs, hex_byte, hex_value,
}
use mactelnet_proxy.Frame.MacTextLaws.{parse_mac-format_mac}
use mactelnet_proxy.Seq.Schedule.{nanos}
use mactelnet_proxy.Frame.Timeout.{nsec_to_timeval, read_timeout, nanoseconds}
use mactelnet_proxy.Frame.Build.{build_frame, eth_p_8021q}
use mactelnet_proxy.Frame.Receive.{
  RawReceiver, parse_udp, parse_ip, parse_tag, parse_frame, read, recv_frame, data_read,
}
use mactelnet_proxy.Frame.Delivered.{
  Claimed, parse_frame-build_frame, parse_frame_drops, parse_frame-Claimed, read_skips,
}

abbrev own : Mac
own = record { m0 = 2; m1 = 1; m2 = 2; m3 = 3; m4 = 4; m5 = 5 }

abbrev peer : Mac
peer = record { m0 = 0x4c; m1 = 0x5e; m2 = 0x0c; m3 = 1; m4 = 2; m5 = 3 }

abbrev receiver : RawReceiver
receiver = record { vlan_id = 10; own_mac = own; closed = false }

parse_frame-build_frame_example :
    parse_frame receiver (build_frame peer own 10 7 (104 ∷ 105 ∷ [])) ≡ some (104 ∷ 105 ∷ [])
unfolding mac_eq
parse_frame-build_frame_example =
    parse_frame-build_frame receiver peer own 7 (104 ∷ 105 ∷ []) (omega arith) (omega arith) refl
      (inl refl) (omega arith)

-- The receiver's own frame, as the socket shows it again.
abbrev own_frame : Bytes
own_frame = 255 ∷ 255 ∷ 255 ∷ 255 ∷ 255 ∷ 255 ∷ 2 ∷ 1 ∷ 2 ∷ 3 ∷ 4 ∷ 5 ∷ 0x81 ∷ 0 ∷ []

parse_frame_drops_test : parse_frame receiver own_frame ≡ none
unfolding mac_eq
parse_frame_drops_test = parse_frame_drops receiver own_frame (inl refl)

-- A tagged datagram with two bytes of data.
abbrev tagged : Bytes
tagged =
    2 ∷ 1 ∷ 2 ∷ 3 ∷ 4 ∷ 5 ∷ 0x4c ∷ 0x5e ∷ 0x0c ∷ 1 ∷ 2 ∷ 3 ∷ 0x81 ∷ 0 ∷ 0 ∷ 10 ∷ 8 ∷ 0 ∷ 0x45 ∷ 0
    ∷ 0 ∷ 30 ∷ 0 ∷ 7 ∷ 0 ∷ 0 ∷ 64 ∷ 17 ∷ 0 ∷ 0 ∷ 0 ∷ 0 ∷ 0 ∷ 0 ∷ 255 ∷ 255 ∷ 255 ∷ 255 ∷ 0x50 ∷ 0x51
    ∷ 0x50 ∷ 0x51 ∷ 0 ∷ 10 ∷ 0 ∷ 0 ∷ 104 ∷ 105 ∷ []

parse_frame-Claimed_example :
    let udp_off = 18 + byte_at tagged 18 % 16 * 4 in
    Claimed tagged (104 ∷ 105 ∷ []) (length tagged) udp_off
    × (byte_at tagged 18 / 16 ≡ 4)
    × (byte_at tagged 27 ≡ 17)
    × (38 ≤ udp_off)
    × (be16_at tagged 12 ≡ eth_p_8021q)
    × (be16_at tagged 14 % 4096 ≡ 10)
unfolding parse_frame parse_tag parse_ip parse_udp mac_eq
parse_frame-Claimed_example = parse_frame-Claimed receiver tagged (104 ∷ 105 ∷ []) refl

read_skips_test :
    read receiver 1 (map recv_frame (own_frame ∷ []) ++ recv_frame tagged ∷ [])
    ≡ some (data_read (104 ∷ []), [])
unfolding parse_frame parse_tag parse_ip parse_udp mac_eq
read_skips_test =
    read_skips receiver 1 (own_frame ∷ []) tagged (104 ∷ 105 ∷ []) [] refl (refl, tt) refl

parse_mac-format_mac_example : parse_mac (format_mac peer) ≡ ok peer
parse_mac-format_mac_example = parse_mac-format_mac peer (ground arith)

-- The other forms that Go's net package reads, and an address of eight bytes.
parse_mac_test :
    (parse_mac (codes "4c5e.0c01.0203") ≡ ok peer)
    × (parse_mac (codes "4C-5E-0C-01-02-03") ≡ ok peer)
    × (parse_mac (codes "4c:5e:0c:01:02:03:04:05") ≡ err (wrong_size 8))
    × (parse_mac (codes "4c:5e:0c:01:02") ≡ err bad_mac)
unfolding parse_mac net_parse_mac hex_groups hex_pairs hex_byte hex_value
parse_mac_test = (refl, refl, refl, refl)

-- A deadline that is reached at this very moment: a timeout of zero, on which the kernel waits for ever.
read_timeout_now_test :
    (nanoseconds (read_timeout (some (nanos 0))) ≡ 0)
    × (nanoseconds (read_timeout (some (nanos 499_999_500))) ≡ 500_000_000)
unfolding read_timeout nsec_to_timeval
read_timeout_now_test = (refl, refl)
