-- ===== src/Mndp/Parser.antt =====
-- src/internal/mndp/parser.go: an announcement and its attributes. Strings are their bytes.
use mactelnet_proxy.Base.{
  ℕ, zero, suc, ◌-◌, ◌*◌, if◌then◌else◌, ltb, leb, ◌==◌, [], Bytes, byte_at, be16_at, le32_at, Mac,
  mac_at, Result, ok, err, length, take, drop,
}

abbrev pub header_len : ℕ
header_len = 4

abbrev pub min_packet_len : ℕ
min_packet_len = 18

abbrev pub mndp_max_string_len : ℕ
mndp_max_string_len = 128

abbrev pub attr_address : ℕ
attr_address = 0x0001

abbrev pub attr_identity : ℕ
attr_identity = 0x0005

abbrev pub attr_version : ℕ
attr_version = 0x0007

abbrev pub attr_platform : ℕ
attr_platform = 0x0008

abbrev pub attr_timestamp : ℕ
attr_timestamp = 0x000a

abbrev pub attr_soft_id : ℕ
attr_soft_id = 0x000b

abbrev pub attr_hardware : ℕ
attr_hardware = 0x000c

abbrev pub attr_ifname : ℕ
attr_ifname = 0x0010

pub data ParseError : Type 0 where
  short_packet : ParseError

-- `Packet`; the uptime is a duration in nanoseconds.
pub record Packet : Type 0 where
  pub header_version : ℕ
  pub ttl : ℕ
  pub checksum : ℕ
  pub mac : Mac
  pub identity : Bytes
  pub version : Bytes
  pub platform : Bytes
  pub uptime : ℕ
  pub soft_id : Bytes
  pub hardware : Bytes
  pub iface : Bytes

abbrev pub zero_mac : Mac
zero_mac = record { m0 = 0; m1 = 0; m2 = 0; m3 = 0; m4 = 0; m5 = 0 }

abbrev pub blank_packet : ℕ → ℕ → ℕ → Packet
blank_packet v t c = record {
  header_version = v;
  ttl = t;
  checksum = c;
  mac = zero_mac;
  identity = [];
  version = [];
  platform = [];
  uptime = 0;
  soft_id = [];
  hardware = [];
  iface = [];
}

-- `clipString`
unfoldable pub clip_string : Bytes → Bytes
clip_string b = if leb mndp_max_string_len (length b) then take (mndp_max_string_len - 1) b else b

-- The switch on the attribute's type. 2^32 seconds are fewer than 2^63 nanoseconds.
unfoldable pub apply_attr : ℕ → Bytes → Packet → Packet
apply_attr typ val pkt =
    if typ == attr_address
    then (if leb 6 (length val) then record pkt { mac = mac_at val 0 } else pkt)
    else if typ == attr_identity
    then record pkt { identity = clip_string val }
    else if typ == attr_version
    then record pkt { version = clip_string val }
    else if typ == attr_platform
    then record pkt { platform = clip_string val }
    else if typ == attr_timestamp
    then (if leb 4 (length val) then record pkt { uptime = le32_at val 0 * 1_000_000_000 } else pkt)
    else if typ == attr_soft_id
    then record pkt { soft_id = clip_string val }
    else if typ == attr_hardware
    then record pkt { hardware = clip_string val }
    else if typ == attr_ifname
    then record pkt { iface = clip_string val }
    else pkt

-- The loop over the attributes; a round takes at least four bytes.
unfoldable pub parse_attrs : ℕ → Bytes → Packet → Packet
parse_attrs zero p pkt = pkt
parse_attrs (suc fuel) p pkt =
    let ln = be16_at p 2 in
    let rest = drop 4 p in
    let next = parse_attrs fuel (drop ln rest) (apply_attr (be16_at p 0) (take ln rest) pkt) in
    if ltb (length p) 4 then pkt else if ltb (length rest) ln then pkt else next

-- `ParsePacket`
unfoldable pub parse_packet : Bytes → Result ParseError Packet
parse_packet buf =
    if ltb (length buf) min_packet_len
    then err short_packet
    else ok (
        parse_attrs (length buf) (drop header_len buf)
          (blank_packet (byte_at buf 0) (byte_at buf 1) (be16_at buf 2)))
