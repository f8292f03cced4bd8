-- ===== src/Session.antt =====
-- src/internal/mactelnet/session.go and loop.go: one session, its receive loop, its sends and its login.
pub mod State
pub mod Inbound
pub mod Packets
pub mod Steps
pub mod Invariant
pub mod Outbound
pub mod Login
pub mod Open
pub mod InboundLaws
pub mod DeliveryLaws
pub mod Retransmission
pub mod OutboundLaws
pub mod WriteLaws
pub mod LoginLaws
pub mod LoginFrame
pub mod Transcript
pub mod LoginWire
pub mod OpenLaws
pub mod Stream
pub mod Loop
pub mod Rounds
pub mod LoopLaws
pub mod Examples
mod LoginExamples
mod LoopExamples
mod OpenExamples
