-- ===== src/Socks.antt =====
-- socks.go: the SOCKS5 server.
pub mod Session
pub mod Method
pub mod Address
pub mod Datagram
pub mod Request
