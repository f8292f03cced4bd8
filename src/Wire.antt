-- ===== src/Wire.antt =====
-- The MAC-Telnet wire format: src/internal/mactelnet/protocol.go. `Header` has the outer headers,
-- `Control` the records inside a DATA payload.
pub mod Header
pub mod Control
pub mod HeaderRoundTrip
pub mod ControlRoundTrip
pub mod Records
pub mod Termination
mod Examples
