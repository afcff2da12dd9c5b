-- ===== src/Socks/Request/Reads.antt =====
-- socks.go: parsing a request reads what a client's address encoding holds.
use cow.Base.{ℕ, ◌%◌, ◌^◌, ◌≡◌, refl, ap, ◌∙◌, ◌⊎◌, inl, inr, Bytes, ◌∷◌, ◌++◌, [], length}
use mathlib.Core.List.{append_assoc}
use cow.Std.Net.{IpText}
use cow.Socks.Session.{Session, ok, and_then, pure, read_full, read_full-append}
use cow.Socks.Address.{target_of, IsAddrPort, ipv4, ipv6, domain, put_uint16, uint16}
use cow.Socks.Datagram.RoundTrip.{uint16-put}
use cow.Socks.Request.{
  parse_socks5_request, read_socks5_target, read_host, read_ip, read_domain, request_of,
  with_target, socks5_cmd_connect, socks5_cmd_udp_associate,
}

-- The address type and what is behind it.
module _ (t : IpText) (s : Session) (rest : Bytes) where
  read_port :
      (host : Bytes) (port : ℕ) (left : Bytes)
      → left ≡ put_uint16 port ++ rest
      → and_then {A = Bytes} {B = Bytes × ℕ}
          (read_full 2 (record s { input = left }))
          (λ p. pure (host, uint16 p))
        ≡ (ok (host, port % 2 ^ 16), record s { input = rest })
  read_port host port left e =
      rw (read_full-append 2 (record s { input = left }) (put_uint16 port) rest e refl)
        (ap (λ k. (ok (host, k), record s { input = rest })) (uint16-put port))

  read_target_ipv4 :
      (ip : Bytes) (port : ℕ)
      → length ip ≡ 4
      → s.input ≡ ip ++ (put_uint16 port ++ rest)
      → read_socks5_target t 1 s ≡ (ok (t.ip_string ip, port % 2 ^ 16), record s { input = rest })
  unfolding read_socks5_target read_host read_ip
  read_target_ipv4 ip port l e =
      rw (read_full-append 4 s ip (put_uint16 port ++ rest) e l)
        (read_port (t.ip_string ip) port (put_uint16 port ++ rest) refl)

  read_target_ipv6 :
      (ip : Bytes) (port : ℕ)
      → length ip ≡ 16
      → s.input ≡ ip ++ (put_uint16 port ++ rest)
      → read_socks5_target t 4 s ≡ (ok (t.ip_string ip, port % 2 ^ 16), record s { input = rest })
  unfolding read_socks5_target read_host read_ip
  read_target_ipv6 ip port l e =
      rw (read_full-append 16 s ip (put_uint16 port ++ rest) e l)
        (read_port (t.ip_string ip) port (put_uint16 port ++ rest) refl)

  read_target_domain :
      (host : Bytes) (port : ℕ)
      → s.input ≡ length host ∷ (host ++ (put_uint16 port ++ rest))
      → read_socks5_target t 3 s ≡ (ok (host, port % 2 ^ 16), record s { input = rest })
  unfolding read_socks5_target read_host read_domain
  read_target_domain host port e =
      let tail = host ++ (put_uint16 port ++ rest) in
      rw
        (
          read_full-append 1 s (length host ∷ []) tail e refl,
          read_full-append (length host) (record s { input = tail }) host (put_uint16 port ++ rest)
              refl refl,
        )
        (read_port host port (put_uint16 port ++ rest) refl)

-- The first three bytes of a request in front of the address.
abbrev pub request_with : ℕ → Bytes → Bytes
request_with cmd b = 5 ∷ cmd ∷ 0 ∷ b

parse_of_target :
    (t : IpText) (s : Session) (cmd atyp : ℕ) (body rest : Bytes) (target : Bytes × ℕ)
    → (cmd ≡ socks5_cmd_connect) ⊎ (cmd ≡ socks5_cmd_udp_associate)
    → s.input ≡ 5 ∷ cmd ∷ 0 ∷ atyp ∷ body
    → read_socks5_target t atyp (record s { input = body }) ≡ (ok target, record s { input = rest })
    → parse_socks5_request t s ≡ (ok (with_target cmd target), record s { input = rest })
unfolding parse_socks5_request request_of
parse_of_target t s cmd atyp body rest target c e r =
    rw (read_full-append 4 s (5 ∷ cmd ∷ 0 ∷ atyp ∷ []) body e refl)
      (elim c [ inl y ↦ rw y (rw r refl) | inr y ↦ rw y (rw r refl) ])

-- The request that a client makes of a command, an encoded address and whatever comes next:
-- `parseSocks5Request` gives the command, the host and port of the address, and leaves the reader
-- at the first byte behind the request.
pub parse_request-reads :
    (t : IpText) (s : Session) (cmd : ℕ) (b rest : Bytes) (a : IsAddrPort b)
    → (cmd ≡ socks5_cmd_connect) ⊎ (cmd ≡ socks5_cmd_udp_associate)
    → s.input ≡ request_with cmd b ++ rest
    → parse_socks5_request t s ≡ (ok (with_target cmd (target_of t a)), record s { input = rest })
parse_request-reads t s cmd b rest (ipv4 ip port k l e) c i =
    let body = ip ++ (put_uint16 port ++ rest) in
    parse_of_target t s cmd 1 body rest (t.ip_string ip, port % 2 ^ 16) c
      (i
        ∙ ap (λ x. request_with cmd x ++ rest) e
        ∙ ap (λ x. 5 ∷ cmd ∷ 0 ∷ 1 ∷ x) (append_assoc ip (put_uint16 port) rest))
      (read_target_ipv4 t (record s { input = body }) rest ip port l refl)
parse_request-reads t s cmd b rest (ipv6 ip port k l e) c i =
    let body = ip ++ (put_uint16 port ++ rest) in
    parse_of_target t s cmd 4 body rest (t.ip_string ip, port % 2 ^ 16) c
      (i
        ∙ ap (λ x. request_with cmd x ++ rest) e
        ∙ ap (λ x. 5 ∷ cmd ∷ 0 ∷ 4 ∷ x) (append_assoc ip (put_uint16 port) rest))
      (read_target_ipv6 t (record s { input = body }) rest ip port l refl)
parse_request-reads t s cmd b rest (domain host port k l m e) c i =
    let body = length host ∷ (host ++ (put_uint16 port ++ rest)) in
    parse_of_target t s cmd 3 body rest (host, port % 2 ^ 16) c
      (i
        ∙ ap (λ x. request_with cmd x ++ rest) e
        ∙ ap (λ x. 5 ∷ cmd ∷ 0 ∷ 3 ∷ length host ∷ x) (append_assoc host (put_uint16 port) rest))
      (read_target_domain t (record s { input = body }) rest host port refl)
