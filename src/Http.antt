-- ===== src/Http.antt =====
-- http.go: URLs, header lines, requests and responses.
pub mod Uri
pub mod Header
pub mod Lines
pub mod Request
pub mod Response
