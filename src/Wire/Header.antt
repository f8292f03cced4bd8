-- ===== src/Wire/Header.antt =====
-- src/internal/mactelnet/protocol.go: the outer header of 22 bytes and the PING/PONG header of 18.
use mactelnet_proxy.Base.{
  ℕ, ◌-◌, Bool, if◌then◌else◌, ltb, [], ◌∷◌, Bytes, byte_at, copy_at, be16, be32, be16_at, be32_at,
  Mac, mac_bytes, mac_at, Option, none, some, Result, ok, err, length, drop, replicate,
}

abbrev pub udp_port : ℕ
udp_port = 20_561

abbrev pub header_len : ℕ
header_len = 22

abbrev pub ping_header_len : ℕ
ping_header_len = 18

abbrev pub cp_header_len : ℕ
cp_header_len = 9

abbrev pub max_packet : ℕ
max_packet = 1500

abbrev pub protocol_version : ℕ
protocol_version = 1

-- `type pType uint8`: any byte may arrive, so this is a number with named values.
abbrev pub PType : Type 0
PType = ℕ

abbrev pub p_type_session_start : PType
p_type_session_start = 0

abbrev pub p_type_data : PType
p_type_data = 1

abbrev pub p_type_ack : PType
p_type_ack = 2

abbrev pub p_type_ping : PType
p_type_ping = 4

abbrev pub p_type_pong : PType
p_type_pong = 5

abbrev pub p_type_end : PType
p_type_end = 255

-- `type cpType int8`, by its bit pattern: -1 is 255.
abbrev pub CpType : Type 0
CpType = ℕ

abbrev pub cp_type_begin_auth : CpType
cp_type_begin_auth = 0

abbrev pub cp_type_pass_salt : CpType
cp_type_pass_salt = 1

abbrev pub cp_type_password : CpType
cp_type_password = 2

abbrev pub cp_type_username : CpType
cp_type_username = 3

abbrev pub cp_type_term_type : CpType
cp_type_term_type = 4

abbrev pub cp_type_term_width : CpType
cp_type_term_width = 5

abbrev pub cp_type_term_height : CpType
cp_type_term_height = 6

abbrev pub cp_type_packet_error : CpType
cp_type_packet_error = 7

abbrev pub cp_type_end_auth : CpType
cp_type_end_auth = 9

abbrev pub cp_type_plain_data : CpType
cp_type_plain_data = 255

abbrev pub cp_magic : Bytes
cp_magic = 0x56 ∷ 0x34 ∷ 0x12 ∷ 0xff ∷ []

abbrev pub client_type : Bytes
client_type = 0x00 ∷ 0x15 ∷ []

pub data Direction : Type 0 where
  to_server to_client : Direction

pub record Header : Type 0 where
  pub version : ℕ
  pub p_type : PType
  pub src_addr : Mac
  pub dst_addr : Mac
  pub session_key : ℕ
  pub counter : ℕ

pub data WireError : Type 0 where
  short_header short_control bad_magic : WireError

abbrev pub seskey_off : Direction → ℕ
seskey_off to_server = 14
seskey_off to_client = 16

abbrev pub ctype_off : Direction → ℕ
ctype_off to_server = 16
ctype_off to_client = 14

-- `header.encode`: the number of bytes written and the buffer after it. `none` is the panic of
-- the bounds check `buf[headerLen-1]`.
unfoldable pub encode : Header → Bytes → Direction → Option (ℕ × Bytes)
encode h buf dir =
    if ltb (header_len - 1) (length buf)
    then some (
      header_len,
      let b = copy_at buf 0 (protocol_version ∷ []) in
          let b = copy_at b 1 (h.p_type ∷ []) in
          let b = copy_at b 2 (mac_bytes h.src_addr) in
          let b = copy_at b 8 (mac_bytes h.dst_addr) in
          let b = copy_at b (seskey_off dir) (be16 h.session_key) in
          let b = copy_at b (ctype_off dir) client_type in copy_at b 18 (be32 h.counter),
    )
    else none

-- `decodeHeader`: the header and the payload behind it.
unfoldable pub decode_header : Bytes → Direction → Result WireError (Header × Bytes)
decode_header buf dir =
    if ltb (length buf) header_len
    then err short_header
    else ok (
      record {
        version = byte_at buf 0;
        p_type = byte_at buf 1;
        src_addr = mac_at buf 2;
        dst_addr = mac_at buf 8;
        session_key = be16_at buf (seskey_off dir);
        counter = be32_at buf 18;
      },
      drop header_len buf,
    )

-- `encodePing`
unfoldable pub encode_ping : Bytes → Mac → Mac → Bool → Option (ℕ × Bytes)
encode_ping buf src_mac dst_mac is_pong =
    if ltb (ping_header_len - 1) (length buf)
    then some (
      ping_header_len,
      let b = copy_at buf 0 (protocol_version ∷ []) in
          let b = copy_at b 1 ((if is_pong then p_type_pong else p_type_ping) ∷ []) in
          let b = copy_at b 2 (mac_bytes src_mac) in
          let b = copy_at b 8 (mac_bytes dst_mac) in
          copy_at b 14 (replicate (ping_header_len - 14) 0),
    )
    else none
