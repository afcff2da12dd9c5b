-- ===== src/Proxy.antt =====
-- proxy.go: the proxy between a client and the servers.
pub mod Connect
pub mod Retry
