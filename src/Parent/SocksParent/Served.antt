-- ===== src/Parent/SocksParent/Served.antt =====
-- parent_proxy.go and socks.go: what a `socksParent` sends is what the server of another COW reads.
use cow.Base.{
  ℕ, ◌%◌, ◌^◌, ◌≤◌, ◌<◌, ◌≡◌, refl, ap, ap₂, ◌∙◌, inl, some, ◌∷◌, ◌++◌, arith, length, Bytes,
}
use cow.Std.Net.{IpText}
use cow.Socks.Session.{Session, ok}
use cow.Socks.Address.{build_socks5_addr_port, host_meant, build_socks5_addr_port-Encodes}
use cow.Socks.Method.{auth_socks_user_pass}
use cow.Socks.Method.Access.{MayEnter, sent_credentials}
use cow.Socks.Method.Accepts.{auth_user_pass-accepts}
use cow.Socks.Request.{with_target, parse_socks5_request}
use cow.Socks.Request.Reads.{request_with, parse_request-reads}
use cow.Parent.SocksParent.{SocksParent, credentials}

-- A length that fits the byte in front of the name.
credentials-sent :
    (sp : SocksParent)
    → length sp.username ≤ 255
    → length sp.password ≤ 255
    → credentials sp ≡ sent_credentials sp.username sp.password
unfolding credentials
credentials-sent sp l m =
    let first : length sp.username % 256 ≡ length sp.username = ground arith in
    let second : length sp.password % 256 ≡ length sp.password = ground arith in
    ap₂ (λ i j. 1 ∷ i ∷ (sp.username ++ j ∷ sp.password)) first second

module _ (t : IpText) (now local_port : ℕ) (client_ip : Bytes) (sp : SocksParent) where
  -- The login of a user who may use the port, of a name and a password of at most 255 bytes each,
  -- with the request for a host and a port behind it, as a `socksParent` sends them: the server
  -- accepts the login, reads the request as a CONNECT to that host, without brackets and with an
  -- address in its usual form, and to the port, modulo 2^16, and leaves the reader right behind it.
  pub credentials-served :
      (host : Bytes) (port : ℕ) (b rest : Bytes) (v : Session)
      → build_socks5_addr_port t host port ≡ some b
      → v.input ≡ credentials sp ++ (request_with 1 b ++ rest)
      → length sp.username ≤ 255
      → length sp.password ≤ 255
      → MayEnter v.auth.user local_port sp.username sp.password
      → 0 < v.writes
      → (v1 : Session) × (v2 : Session) × (auth_socks_user_pass now local_port client_ip v
          ≡ (ok tt, v1))
        × (parse_socks5_request t v1 ≡ (ok (with_target 1 (host_meant t host, port % 2 ^ 16)), v2))
        × (v2.input ≡ rest)
  credentials-served host port b rest v e i l m may w =
      let (v1, f, j) =
        auth_user_pass-accepts now local_port client_ip sp.username sp.password
          (request_with 1 b ++ rest) v
          (i ∙ ap (λ k. k ++ (request_with 1 b ++ rest)) (credentials-sent sp l m)) may w in
      let (a, g) = build_socks5_addr_port-Encodes t port b host e in
      (
        v1,
        record v1 { input = rest },
        f,
        parse_request-reads t v1 1 b rest a (inl refl) j
            ∙ ap (λ k. (ok (with_target 1 k), record v1 { input = rest })) g,
        refl,
      )
