-- ===== src/Mndp.antt =====
-- Neighbour discovery: src/internal/mndp.
pub mod Parser
pub mod Discover
pub mod ParseBuild
pub mod Bounds
pub mod Latest
pub mod Order
pub mod Termination
mod Examples
