-- ===== src/Mndp/Discover.antt =====
-- src/internal/mndp/discover.go, types.go and the choice of the broadcast address in conn.go. What the
-- socket yields until the deadline or a cancellation is a list of events.
use Prim.Native.Nat.{bit_or}
use mactelnet_proxy.Base.{
  ℕ, ◌+◌, ◌-◌, ◌/◌, ◌%◌, Bool, true, false, if◌then◌else◌, ltb, ◌==◌, List, [], ◌∷◌, Bytes, Mac,
  mac_eq, Result, ok, err, Option, none, some,
}
use mactelnet_proxy.Mndp.Parser.{Packet, parse_packet, zero_mac}

-- The UDP source address, with the text that Go's net package prints for it.
pub data Source : Type 0 where
  no_source : Source
  ipv4_source ipv6_source : Bytes → Source

-- `Neighbor`; times are numbers.
pub record Neighbor : Type 0 where
  pub mac : Bytes
  pub identity : Bytes
  pub platform : Bytes
  pub version : Bytes
  pub board : Bytes
  pub software_id : Bytes
  pub iface : Bytes
  pub ipv4 : Bytes
  pub ipv6 : Bytes
  pub uptime : ℕ
  pub seen_at : ℕ

-- `%02x` and `formatMAC`
abbrev pub hex_digit : ℕ → ℕ
hex_digit d = if ltb d 10 then b'0' + d else 87 + d

abbrev pub hex2 : ℕ → Bytes → Bytes
hex2 b rest = hex_digit (b / 16) ∷ hex_digit (b % 16) ∷ rest

unfoldable pub format_mac : Mac → Bytes
format_mac a = hex2 a.m0 (
    b':' ∷ hex2 a.m1 (b':' ∷ hex2 a.m2 (b':' ∷ hex2 a.m3 (b':' ∷ hex2 a.m4 (b':' ∷ hex2 a.m5 [])))))

abbrev source_v4 : Source → Bytes
source_v4 (ipv4_source s) = s
source_v4 _ = []

abbrev source_v6 : Source → Bytes
source_v6 (ipv6_source s) = s
source_v6 _ = []

-- `packetToNeighbor`
unfoldable pub packet_to_neighbor : Packet → Source → ℕ → Neighbor
packet_to_neighbor pkt src now = record {
  mac = format_mac pkt.mac;
  identity = pkt.identity;
  platform = pkt.platform;
  version = pkt.version;
  board = pkt.hardware;
  software_id = pkt.soft_id;
  iface = pkt.iface;
  ipv4 = source_v4 src;
  ipv6 = source_v6 src;
  uptime = pkt.uptime;
  seen_at = now;
}

-- The map from addresses to neighbours.
abbrev pub Seen : Type 0
Seen = List (Mac × Neighbor)

unfoldable pub lookup : Mac → Seen → Option Neighbor
lookup a [] = none
lookup a ((b, n) ∷ m) = if mac_eq b a then some n else lookup a m

unfoldable pub insert : Mac → Neighbor → Seen → Seen
insert a n [] = (a, n) ∷ []
insert a n ((b, k) ∷ m) = if mac_eq b a then (a, n) ∷ m else (b, k) ∷ insert a n m

pub data Event : Type 0 where
  silence : Event
  read_error : Event
  datagram : Bytes → Source → ℕ → Event

-- What one datagram does to the map.
unfoldable pub note_packet : Packet → Source → ℕ → Seen → Seen
note_packet pkt src now seen =
    if mac_eq pkt.mac zero_mac then seen else insert pkt.mac (packet_to_neighbor pkt src now) seen

unfoldable pub note_datagram : Bytes → Source → ℕ → Seen → Seen
note_datagram buf src now seen = elim (parse_packet buf) [
  | err e ↦ seen
  | ok pkt ↦ note_packet pkt src now seen
]

-- The loop: the map, and whether it ended by a read error.
unfoldable pub listen : List Event → Seen → Seen × Bool
listen [] seen = (seen, false)
listen (silence ∷ es) seen = listen es seen
listen (read_error ∷ es) seen = (seen, true)
listen (datagram buf src now ∷ es) seen = listen es (note_datagram buf src now seen)

-- Go's order of strings.
abbrev pub less : Bytes → Bytes → Bool
less [] [] = false
less [] (y ∷ ys) = true
less (x ∷ xs) [] = false
less (x ∷ xs) (y ∷ ys) = if x == y then less xs ys else ltb x y

-- `sort.Slice` by the MAC, which is different for each entry, as an insertion sort.
unfoldable pub insert_sorted : Neighbor → List Neighbor → List Neighbor
insert_sorted n [] = n ∷ []
insert_sorted n (k ∷ ks) = if less k.mac n.mac then k ∷ insert_sorted n ks else n ∷ k ∷ ks

unfoldable pub sort_neighbors : List Neighbor → List Neighbor
sort_neighbors [] = []
sort_neighbors (n ∷ ns) = insert_sorted n (sort_neighbors ns)

unfoldable pub entries : Seen → List Neighbor
entries [] = []
entries ((a, n) ∷ m) = n ∷ entries m

-- `collectNeighbors`
unfoldable pub collect_neighbors : Seen → List Neighbor
collect_neighbors seen = sort_neighbors (entries seen)

-- `Discover`, once the listener is open: the neighbours, and whether an error comes with them.
unfoldable pub discover : List Event → List Neighbor × Bool
discover events = let (seen, failed) = listen events [] in (collect_neighbors seen, failed)

-- An address of an interface: not a network, no IPv4, or an IPv4 address with its mask.
pub data IfaceAddr : Type 0 where
  other_addr ipv6_net : IfaceAddr
  ipv4_net : Bytes → Bytes → IfaceAddr

-- `ip4[i] | ^mask[i]` in each byte.
unfoldable pub directed_broadcast : Bytes → Bytes → Bytes
directed_broadcast (a ∷ ip) (m ∷ mask) = bit_or a (255 - m) ∷ directed_broadcast ip mask
directed_broadcast _ _ = []

pub data BroadcastError : Type 0 where
  no_interface no_addrs no_ipv4 : BroadcastError

unfoldable pub first_broadcast : List IfaceAddr → Result BroadcastError Bytes
first_broadcast [] = err no_ipv4
first_broadcast (other_addr ∷ rest) = first_broadcast rest
first_broadcast (ipv6_net ∷ rest) = first_broadcast rest
first_broadcast (ipv4_net ip mask ∷ rest) = ok (directed_broadcast ip mask)

-- `resolveBroadcast`: the interface's addresses are the system's answer.
unfoldable pub resolve_broadcast :
    (Bytes → Result BroadcastError (List IfaceAddr)) → Bytes → Result BroadcastError Bytes
resolve_broadcast addrs_of [] = ok (255 ∷ 255 ∷ 255 ∷ 255 ∷ [])
resolve_broadcast addrs_of (c ∷ name) = elim (addrs_of (c ∷ name)) [
  | err e ↦ err e
  | ok addrs ↦ first_broadcast addrs
]
