-- ===== src/Auth.antt =====
-- The messages of the login: src/internal/mactelnet/auth.go.
pub mod Messages
pub mod Sequence
pub mod Records
mod Examples
