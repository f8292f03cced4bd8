-- ===== src/Mndp/Latest.antt =====
-- Which announcements Discover of src/internal/mndp/discover.go keeps.
use mactelnet_proxy.Base.{
  ℕ, ◌≡◌, refl, arith, ◌&&◌, not, List, [], ◌∷◌, Bytes, Mac, mac_eq, mac_eq_sound, mac_eq_refl, ok,
  err, Option, none, some, if◌then◌else◌, inl, inr, Result-cases, ◌∙◌,
}
use mactelnet_proxy.Mndp.Parser.{Packet, parse_packet, zero_mac}
use mactelnet_proxy.Mndp.Discover.{
  Source, Neighbor, Seen, lookup, insert, Event, silence, read_error, datagram, note_packet,
  note_datagram, listen, packet_to_neighbor,
}

-- The packet of a datagram that announces the address `a`.
abbrev pub announces : Mac → Bytes → Option Packet
announces a buf = elim (parse_packet buf) [
  | err e ↦ none
  | ok pkt ↦ if mac_eq pkt.mac a && not (mac_eq pkt.mac zero_mac) then some pkt else none
]

-- The last announcement of `a` before an error, and else what was known.
abbrev pub latest : Mac → List Event → Option Neighbor → Option Neighbor
latest a [] known = known
latest a (silence ∷ es) known = latest a es known
latest a (read_error ∷ es) known = known
latest a (datagram buf src now ∷ es) known =
    latest a es
      (elim (announces a buf) [ none ↦ known | some pkt ↦ some (packet_to_neighbor pkt src now) ])

lookup-insert :
    (a b : Mac) (n : Neighbor) (m : Seen)
    → lookup b (insert a n m) ≡ (if mac_eq a b then some n else lookup b m)
unfolding lookup insert
lookup-insert a b n [] = refl
lookup-insert a b n ((c, k) ∷ m) =
    ground (arith, lookup-insert a b n m, mac_eq_sound c a, mac_eq_sound a b, mac_eq_refl b)

lookup-note_datagram :
    (a : Mac) (buf : Bytes) (src : Source) (now : ℕ) (seen : Seen)
    → lookup a (note_datagram buf src now seen) ≡ elim (announces a buf) [
      | none ↦ lookup a seen
      | some pkt ↦ some (packet_to_neighbor pkt src now)
    ]
unfolding note_datagram note_packet
lookup-note_datagram a buf src now seen = elim (Result-cases (parse_packet buf)) [
  | inl (pkt, e) ↦
      rw (e, note_datagram)
        (ground (arith, lookup-insert pkt.mac a (packet_to_neighbor pkt src now) seen))
  | inr (x, e) ↦ rw (e, note_datagram)
]

-- At the end of the listening the map has for each address its last valid announcement before the
-- first read error, or nothing.
pub lookup-listen :
    (a : Mac) (es : List Event) (seen : Seen)
    → lookup a (listen es seen).0 ≡ latest a es (lookup a seen)
unfolding listen
lookup-listen a [] seen = refl
lookup-listen a (silence ∷ es) seen = lookup-listen a es seen
lookup-listen a (read_error ∷ es) seen = refl
lookup-listen a (datagram buf src now ∷ es) seen =
    lookup-listen a es (note_datagram buf src now seen) ∙ rw lookup-note_datagram
