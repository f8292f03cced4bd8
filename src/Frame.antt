-- ===== src/Frame.antt =====
-- Ethernet, 802.1Q, IP and UDP around a MAC-Telnet packet: src/internal/mactelnet/conn.go.
pub mod Checksum
pub mod Build
pub mod Sender
pub mod Receive
pub mod MacText
pub mod Sockets
pub mod Timeout
pub mod SocketsLaws
pub mod MacTextLaws
pub mod IpHeader
pub mod Delivered
mod Examples
