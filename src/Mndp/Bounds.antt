-- ===== src/Mndp/Bounds.antt =====
-- The bounds that ParsePacket of src/internal/mndp/parser.go enforces on what a device announces.
use mactelnet_proxy.Base.{◌≤◌, ◌<◌, length}
use mactelnet_proxy.Mndp.Parser.{Packet}

-- A parsed packet's strings have at most 127 bytes, and its uptime is a duration.
pub record IsBounded (pkt : Packet) : Type 0 where
  pub identity : length pkt.identity ≤ 127
  pub version : length pkt.version ≤ 127
  pub platform : length pkt.platform ≤ 127
  pub soft_id : length pkt.soft_id ≤ 127
  pub hardware : length pkt.hardware ≤ 127
  pub iface : length pkt.iface ≤ 127
  pub uptime : pkt.uptime < 9_223_372_036_854_775_808
