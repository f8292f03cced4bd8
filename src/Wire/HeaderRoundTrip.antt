-- ===== src/Wire/HeaderRoundTrip.antt =====
-- What the outer header of src/internal/mactelnet/protocol.go guarantees: encoding and decoding agree
-- in each direction, and a packet read in the wrong direction or of the PING kind is told apart.
use mactelnet_proxy.Base.{
  ℕ, ◌+◌, ◌≤◌, ◌<◌, ◌≡◌, ◌↔◌, arith, Bool, ◌∷◌, ◌++◌, Bytes, be16, be32, mac_bytes, Mac, IsByte,
  All, u16_mod, u32_mod, some, none, ok, err, length, drop, byte_at, if◌then◌else◌, lt→ltb, ltb→lt,
  ltb, false, Bool-cases, inl, inr, slice,
}
use mactelnet_proxy.Wire.Header.{
  Header, Direction, to_server, to_client, encode, decode_header, encode_ping, header_len,
  ping_header_len, short_header, protocol_version, client_type, p_type_pong, p_type_ping, ctype_off,
}

-- The bytes 14 to 17, which the two directions order differently.
abbrev pub key_fields : Header → Direction → Bytes
key_fields h to_server = be16 h.session_key ++ client_type
key_fields h to_client = client_type ++ be16 h.session_key

-- The 22 bytes of a header, as the layout comment of protocol.go lists them.
abbrev pub header_bytes : Header → Direction → Bytes
header_bytes h dir =
    protocol_version
    ∷ h.p_type
    ∷ (mac_bytes h.src_addr ++ (mac_bytes h.dst_addr ++ (key_fields h dir ++ be32 h.counter)))

-- Encoding into a buffer of at least 22 bytes replaces its first 22 bytes by the layout of
-- protocol.go and leaves the others.
pub encode_bytes :
    (h : Header) (buf : Bytes) (dir : Direction)
    → header_len ≤ length buf
    → encode h buf dir ≡ some (header_len, header_bytes h dir ++ drop header_len buf)
unfolding encode
encode_bytes h
      (b0 ∷ b1 ∷ b2 ∷ b3 ∷ b4 ∷ b5 ∷ b6 ∷ b7 ∷ b8 ∷ b9 ∷ b10 ∷ b11 ∷ b12 ∷ b13 ∷ b14 ∷ b15 ∷ b16
        ∷ b17 ∷ b18 ∷ b19 ∷ b20 ∷ b21 ∷ rest)
      to_server k =
    rw (lt→ltb 21 _ k)
encode_bytes h
      (b0 ∷ b1 ∷ b2 ∷ b3 ∷ b4 ∷ b5 ∷ b6 ∷ b7 ∷ b8 ∷ b9 ∷ b10 ∷ b11 ∷ b12 ∷ b13 ∷ b14 ∷ b15 ∷ b16
        ∷ b17 ∷ b18 ∷ b19 ∷ b20 ∷ b21 ∷ rest)
      to_client k =
    rw (lt→ltb 21 _ k)
encode_bytes h _ dir k = absurd (omega arith)

pub decode_bytes :
    (h : Header) (payload : Bytes) (dir : Direction)
    → h.session_key < u16_mod
    → h.counter < u32_mod
    → decode_header (header_bytes h dir ++ payload) dir
      ≡ ok (record h { version = protocol_version }, payload)
unfolding decode_header
decode_bytes h payload to_server k c = ground arith
decode_bytes h payload to_client k c = ground arith

encode-none :
    (h : Header) (buf : Bytes) (dir : Direction)
    → ltb 21 (length buf) ≡ false
    → encode h buf dir ≡ none
unfolding encode
encode-none h buf dir e = rw e

-- Decoding what was encoded, in the same direction, gives the header back with the protocol's
-- version, and what stood behind the header in the buffer as the payload.
pub decode_header-encode :
    (h : Header) (buf : Bytes) (dir : Direction) (n : ℕ) (out : Bytes)
    → h.session_key < u16_mod
    → h.counter < u32_mod
    → encode h buf dir ≡ some (n, out)
    → (n ≡ header_len)
      × (decode_header out dir ≡ ok (record h { version = protocol_version }, drop header_len buf))
decode_header-encode h buf dir n out k c e = elim (Bool-cases (ltb 21 (length buf))) [
  | inl long ↦
      let whole = encode_bytes h buf dir (ltb→lt 21 _ long) in
      let back = decode_bytes h (drop header_len buf) dir k c in (cc whole, cc (whole, back))
  | inr short ↦ cc (encode-none h buf dir short)
]

-- The bytes of a decoded packet are those of its header and its payload: on bytes, with version 1
-- and the client-type magic in its place, nothing else of the 22 bytes is lost.
pub header_bytes-decode_header :
    (buf : Bytes) (dir : Direction) (h : Header) (payload : Bytes)
    → All IsByte buf
    → byte_at buf 0 ≡ protocol_version
    → slice buf (ctype_off dir) (ctype_off dir + 2) ≡ client_type
    → decode_header buf dir ≡ ok (h, payload)
    → header_bytes h dir ++ payload ≡ buf
unfolding decode_header
header_bytes-decode_header
      (b0 ∷ b1 ∷ b2 ∷ b3 ∷ b4 ∷ b5 ∷ b6 ∷ b7 ∷ b8 ∷ b9 ∷ b10 ∷ b11 ∷ b12 ∷ b13 ∷ b14 ∷ b15 ∷ b16
        ∷ b17 ∷ b18 ∷ b19 ∷ b20 ∷ b21 ∷ rest)
      to_server h payload bytes v m e =
    ground arith
header_bytes-decode_header
      (b0 ∷ b1 ∷ b2 ∷ b3 ∷ b4 ∷ b5 ∷ b6 ∷ b7 ∷ b8 ∷ b9 ∷ b10 ∷ b11 ∷ b12 ∷ b13 ∷ b14 ∷ b15 ∷ b16
        ∷ b17 ∷ b18 ∷ b19 ∷ b20 ∷ b21 ∷ rest)
      to_client h payload bytes v m e =
    ground arith
header_bytes-decode_header _ dir h payload bytes v m e = ground arith

-- A packet is refused as too short exactly when it has fewer than 22 bytes.
pub decode_header-short :
    (buf : Bytes) (dir : Direction)
    → (decode_header buf dir ≡ err short_header) ↔ (length buf < header_len)
unfolding decode_header
decode_header-short buf dir = ground arith

-- A client's packet that is read as a server's has the client-type magic, 21, for its session key.
pub decode_header_wrong_direction :
    (h : Header) (payload : Bytes) (g : Header) (rest : Bytes)
    → decode_header (header_bytes h to_server ++ payload) to_client ≡ ok (g, rest)
    → (g.session_key ≡ 21) × (g.p_type ≡ h.p_type) × (g.src_addr ≡ h.src_addr) × (rest ≡ payload)
unfolding decode_header
decode_header_wrong_direction h payload g rest e = ground arith

-- A PING or PONG takes 18 bytes of the buffer: version, kind, both addresses and four zeros.
pub encode_ping_bytes :
    (buf : Bytes) (src dst : Mac) (is_pong : Bool)
    → ping_header_len ≤ length buf
    → encode_ping buf src dst is_pong
      ≡ some (
        ping_header_len,
        protocol_version
            ∷ (if is_pong then p_type_pong else p_type_ping)
            ∷ (mac_bytes src ++ (mac_bytes dst ++ (0 ∷ 0 ∷ 0 ∷ 0 ∷ drop ping_header_len buf))),
      )
unfolding encode_ping
encode_ping_bytes
      (b0 ∷ b1 ∷ b2 ∷ b3 ∷ b4 ∷ b5 ∷ b6 ∷ b7 ∷ b8 ∷ b9 ∷ b10 ∷ b11 ∷ b12 ∷ b13 ∷ b14 ∷ b15 ∷ b16
        ∷ b17 ∷ rest)
      src dst is_pong k =
    rw (lt→ltb 17 _ k)
encode_ping_bytes _ src dst is_pong k = absurd (omega arith)
