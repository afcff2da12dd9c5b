-- ===== src/Parent.antt =====
-- parent_proxy.go: the parent proxies.
pub mod InOrder
pub mod SocksParent
pub mod HttpPool
