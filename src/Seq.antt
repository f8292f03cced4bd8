-- ===== src/Seq.antt =====
-- Sequencing and retransmission: src/internal/mactelnet/seq.go.
pub mod Counters
pub mod Schedule
pub mod Delivery
pub mod Budget
mod Examples
