-- ===== src/Wire/Examples.antt =====
-- Runs of the codecs of src/internal/mactelnet/protocol.go on concrete packets.
use mactelnet_proxy.Base.{
  ◌≡◌, refl, arith, List, [], ◌∷◌, ◌++◌, Bytes, Mac, be32, replicate, ok, some, true,
}
use mactelnet_proxy.Wire.Header.{
  Header, to_server, to_client, header_len, decode_header, encode, encode_ping, protocol_version,
  p_type_data, cp_magic,
}
use mactelnet_proxy.Wire.Control.{ControlRecord, collect, iterate_from, iterate_control, records}
use mactelnet_proxy.Wire.Termination.{iterate_from-iterate_control}
use mactelnet_proxy.Wire.HeaderRoundTrip.{
  header_bytes, decode_header-encode, header_bytes-decode_header, encode_ping_bytes,
}
use mactelnet_proxy.Wire.Records.{wire, records-wire, records_truncated}

abbrev mac_a : Mac
mac_a = record { m0 = 2; m1 = 1; m2 = 2; m3 = 3; m4 = 4; m5 = 5 }

abbrev mac_b : Mac
mac_b = record { m0 = 0x4c; m1 = 0x5e; m2 = 0x0c; m3 = 1; m4 = 2; m5 = 3 }

abbrev packet_header : Header
packet_header = record {
  version = 1;
  p_type = p_type_data;
  src_addr = mac_a;
  dst_addr = mac_b;
  session_key = 0xbeef;
  counter = 0x01020304;
}

abbrev zeros : Bytes
zeros = replicate 24 0

decode_header-encode_example :
    (22 ≡ header_len)
    × (decode_header (header_bytes packet_header to_server ++ (0 ∷ 0 ∷ [])) to_server
        ≡ ok (record packet_header { version = protocol_version }, 0 ∷ 0 ∷ []))
unfolding encode
decode_header-encode_example =
    decode_header-encode packet_header zeros to_server 22
      (header_bytes packet_header to_server ++ (0 ∷ 0 ∷ [])) (omega arith) (omega arith) refl

header_bytes-decode_header_test :
    header_bytes packet_header to_client ++ (7 ∷ [])
    ≡ header_bytes packet_header to_client ++ (7 ∷ [])
unfolding decode_header
header_bytes-decode_header_test =
    header_bytes-decode_header (header_bytes packet_header to_client ++ (7 ∷ [])) to_client
      packet_header (7 ∷ []) (ground arith) refl refl refl

encode_ping_test :
    encode_ping (replicate 18 9) mac_a mac_b true
    ≡ some (18, 1 ∷ 5 ∷ 2 ∷ 1 ∷ 2 ∷ 3 ∷ 4 ∷ 5 ∷ 0x4c ∷ 0x5e ∷ 0x0c ∷ 1 ∷ 2 ∷ 3 ∷ 0 ∷ 0 ∷ 0 ∷ 0 ∷ [])
encode_ping_test = encode_ping_bytes (replicate 18 9) mac_a mac_b true (omega arith)

abbrev two_records : List ControlRecord
two_records = record { cp_type = 0; body = [] } ∷ record { cp_type = 5; body = 80 ∷ 0 ∷ [] } ∷ []

records-wire_example : records (wire two_records ++ (65 ∷ [])) ≡ two_records ++ records (65 ∷ [])
records-wire_example = records-wire two_records (65 ∷ []) (omega arith)

records_truncated_test :
    records (cp_magic ++ 3 ∷ (be32 5 ++ (65 ∷ 66 ∷ [])))
    ≡ record { cp_type = 3; body = 65 ∷ 66 ∷ [] } ∷ []
records_truncated_test = records_truncated 3 5 (65 ∷ 66 ∷ []) (omega arith) (omega arith)

iterate_from-iterate_control_example :
    iterate_from 1400 collect (wire two_records) [] ≡ iterate_control collect (wire two_records) []
iterate_from-iterate_control_example =
    iterate_from-iterate_control collect 1400 (wire two_records) [] (omega arith)
