-- ===== src/Srp.antt =====
-- src/internal/mactelnet/mtwei.go: the EC-SRP computations of a login.
pub mod Curve
pub mod Exchange
pub mod CurveLaws
pub mod ExchangeLaws
pub mod Examples
