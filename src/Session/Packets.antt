-- ===== src/Session/Packets.antt =====
-- src/internal/mactelnet/session.go: the bytes of the packets that a session sends.
use mactelnet_proxy.Base.{
  ℕ, ◌+◌, ◌≡◌, refl, sym, ◌∙◌, ap, arith, ◌++◌, Bytes, overwrite, overwrite_same, replicate,
  replicate_add, length-replicate, length, drop,
}
use mactelnet_proxy.Wire.Header.{PType, to_server, header_len}
use mactelnet_proxy.Wire.HeaderRoundTrip.{header_bytes, encode_bytes}
use mactelnet_proxy.Session.State.{Session, header_of, packet, written}

-- Every packet is its header and its payload, with nothing lost or added.
pub packet_bytes :
    (s : Session) (pt : PType) (counter : ℕ) (payload : Bytes)
    → packet s pt counter payload ≡ header_bytes (header_of s pt counter) to_server ++ payload
unfolding packet
packet_bytes s pt counter payload =
    let n = length payload in
    let buf : Bytes = replicate (header_len + n) 0 in
    let zeros : drop header_len buf ≡ replicate n 0 = rw (replicate_add {A = ℕ} 22 n 0) refl in
    let head = header_bytes (header_of s pt counter) to_server in
    ap (λ r. written r buf payload)
      (encode_bytes (header_of s pt counter) buf to_server
        (omega (arith, length-replicate {A = ℕ} (header_len + n) 0)))
    ∙ ap (λ z. head ++ overwrite payload z) zeros
    ∙ ap (◌++◌ head)
        (overwrite_same payload (replicate {A = ℕ} n 0) (sym (length-replicate {A = ℕ} n 0)))
