-- ===== src/Session/Invariant.antt =====
-- Every step of a session of src/internal/mactelnet keeps its invariant.
use mactelnet_proxy.Wire.Header.{Header}
use mactelnet_proxy.Seq.Counters.{Counters}
use mactelnet_proxy.Session.State.{Session}
