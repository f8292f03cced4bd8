-- ===== src/Mndp/Examples.antt =====
-- Runs of the parser and of the discovery of src/internal/mndp.
use mathlib.Core.List.{Perm}
use mactelnet_proxy.Base.{◌≡◌, arith, inl, List, [], ◌∷◌, Bytes, Mac, ok}
use mactelnet_proxy.Mndp.Parser.{parse_packet, blank_packet}
use mactelnet_proxy.Mndp.ParseBuild.{Tlv, build_packet, apply_all, parse_packet-build_packet}
use mactelnet_proxy.Mndp.Discover.{
  Event, silence, datagram, no_source, ipv4_source, discover, listen, lookup, entries,
}
use mactelnet_proxy.Mndp.Latest.{latest, lookup-listen}
use mactelnet_proxy.Mndp.Order.{IsSorted, discover-IsSorted}

abbrev router : Mac
router = record { m0 = 0x4c; m1 = 0x5e; m2 = 0x0c; m3 = 1; m4 = 2; m5 = 3 }

abbrev attrs : List Tlv
attrs =
    record { typ = 1; val = 0x4c ∷ 0x5e ∷ 0x0c ∷ 1 ∷ 2 ∷ 3 ∷ [] }
    ∷ record { typ = 5; val = b'r' ∷ b'1' ∷ [] }
    ∷ []

abbrev announcement : Bytes
announcement = build_packet 0 1 258 attrs (0 ∷ 5 ∷ [])

parse_packet-build_packet_example :
    parse_packet announcement ≡ ok (apply_all attrs (blank_packet 0 1 258))
parse_packet-build_packet_example =
    parse_packet-build_packet 0 1 258 attrs (0 ∷ 5 ∷ []) (omega arith) (ground arith)
      (inl (omega arith)) (omega arith)

abbrev heard : List Event
heard =
    datagram announcement no_source 1
    ∷ silence
    ∷ datagram announcement (ipv4_source (49 ∷ [])) 2
    ∷ []

lookup-listen_example : lookup router (listen heard []).0 ≡ latest router heard (lookup router [])
lookup-listen_example = lookup-listen router heard []

discover-IsSorted_example :
    IsSorted (discover heard).0 × Perm (discover heard).0 (entries (listen heard []).0)
discover-IsSorted_example = discover-IsSorted heard
