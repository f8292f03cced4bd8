-- ===== src/Frame/IpHeader.antt =====
-- The frame of src/internal/mactelnet/conn.go as one list of bytes, and the checksum of its IP header.
use mactelnet_proxy.Base.{
  ℕ, ◌+◌, ◌*◌, ◌/◌, ◌%◌, ◌<◌, ◌≡◌, refl, arith, [], ◌∷◌, ◌++◌, Bytes, Mac, mac_bytes, be16, length,
  replicate, replicate_add, overwrite, overwrite_same, length-replicate, if◌then◌else◌, ◌==◌,
  u16_mod, u32_mod, Bool-cases, inl, inr,
}
use mactelnet_proxy.Wire.Header.{udp_port}
use mactelnet_proxy.Frame.Checksum.{internet_checksum, sum_words}
use mactelnet_proxy.Frame.Build.{build_frame, eth_p_ip, eth_p_8021q}

abbrev pub ethernet_bytes : Mac → Mac → ℕ → Bytes
ethernet_bytes src dst vlan =
    mac_bytes dst
    ++ (mac_bytes src
        ++ (if vlan == 0
            then be16 eth_p_ip
            else be16 eth_p_8021q ++ (be16 (vlan % 4096) ++ be16 eth_p_ip)))

-- The IP header around a checksum.
abbrev pub ip_bytes : ℕ → ℕ → Bytes → Bytes
ip_bytes ip_id len sum =
    0x45
    ∷ 0x00
    ∷ (be16 ((28 + len) % u16_mod)
        ++ (be16 ip_id
            ++ (0 ∷ 0 ∷ 64 ∷ 17 ∷ (sum ++ (0 ∷ 0 ∷ 0 ∷ 0 ∷ 255 ∷ 255 ∷ 255 ∷ 255 ∷ [])))))

abbrev pub header_checksum : ℕ → ℕ → ℕ
header_checksum ip_id len = internet_checksum (ip_bytes ip_id len (0 ∷ 0 ∷ []))

abbrev pub udp_bytes : ℕ → Bytes
udp_bytes len = be16 udp_port ++ (be16 udp_port ++ (be16 ((8 + len) % u16_mod) ++ (0 ∷ 0 ∷ [])))

abbrev pub frame_bytes : Mac → Mac → ℕ → ℕ → Bytes → Bytes
frame_bytes src dst vlan ip_id payload =
    ethernet_bytes src dst vlan
    ++ (ip_bytes ip_id (length payload) (be16 (header_checksum ip_id (length payload)))
        ++ (udp_bytes (length payload) ++ payload))

zeros_same : (n : ℕ) → overwrite (replicate n 0) (replicate n 0) ≡ replicate n 0
zeros_same n = overwrite_same _ _ refl

payload_over : (p : Bytes) → overwrite p (replicate (length p) 0) ≡ p
payload_over p = overwrite_same p _ (rw (length-replicate {A = ℕ} (length p) 0))

-- buildFrame lays out Ethernet, the tag if the VLAN is not 0, IP, UDP and the payload, in this
-- order, and nothing else.
pub build_frame_bytes :
    (src dst : Mac) (vlan ip_id : ℕ) (payload : Bytes)
    → build_frame src dst vlan ip_id payload ≡ frame_bytes src dst vlan ip_id payload
unfolding build_frame
build_frame_bytes src dst vlan ip_id payload = elim (Bool-cases (vlan == 0)) [
  | inl untagged ↦
      rw (untagged, replicate_add {A = ℕ} 42 (length payload) 0)
        (rw (zeros_same (length payload), payload_over payload, payload_over payload))
  | inr tagged ↦
      rw (tagged, replicate_add {A = ℕ} 46 (length payload) 0)
        (rw (zeros_same (length payload), payload_over payload, payload_over payload))
]

sum_words-lt : (b : Bytes) (sum : ℕ) → sum < u32_mod → sum_words b sum < u32_mod
unfolding sum_words
sum_words-lt [] sum h = h
sum_words-lt (a ∷ []) sum h = omega arith
sum_words-lt (a ∷ b ∷ rest) sum h = sum_words-lt rest _ (omega arith)

abbrev carry : ℕ → ℕ
carry s = s % u16_mod + s / u16_mod

-- Folding a uint32 ends within three rounds, with a result of 16 bits that agrees with the sum
-- modulo 65535, and is zero only for zero.
record Folds (s f : ℕ) : Type 0 where
  small : f < u16_mod
  times : ℕ
  agrees : s ≡ f + 65_535 * times
  positive : 0 < s → 0 < f

-- The ten words of the header, with and without the checksum.
abbrev ip_sum : ℕ → ℕ → ℕ
ip_sum ip_id len = 0x4500 + (28 + len) % u16_mod + ip_id + 0x4011 + 0x1fffe
