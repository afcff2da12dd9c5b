-- ===== src/Url.antt =====
-- http.go: the type `URL`.
use cow.Base.{Bytes}

pub record Url : Type 0 where
  pub host_port : Bytes
  pub host : Bytes
  pub port : Bytes
  pub domain : Bytes
  pub path : Bytes
