-- ===== src/Socks/Request.antt =====
-- socks.go: the request of a SOCKS5 client. The HTTP request that a CONNECT fills is its method
-- and target, which the parsed request holds too.
pub mod Reads
use cow.Base.{
  ℕ, ◌+◌, ◌*◌, ◌/◌, ◌%◌, ◌^◌, ◌≡◌, not, ◌&&◌, ◌||◌, Bytes, ◌==◌, if◌then◌else◌, get_or, length,
}
use cow.Std.Strconv.{itoa}
use cow.Std.Net.{IpText, join_host_port}
use cow.Socks.Session.{Session, request_error, M, and_then, ◌>>=◌, ◌>>◌, pure, fail, read_full}
use cow.Socks.Address.{socks5_atyp_ipv4, socks5_atyp_domain, socks5_atyp_ipv6, uint16}
use cow.Socks.Method.{socks5_version, socks5_status_general_error}

abbrev pub socks5_cmd_connect : ℕ
socks5_cmd_connect = 1

abbrev pub socks5_cmd_udp_associate : ℕ
socks5_cmd_udp_associate = 3

abbrev pub socks5_status_cmd_unsupported : ℕ
socks5_status_cmd_unsupported = 7

abbrev pub socks5_status_atyp_unsupported : ℕ
socks5_status_atyp_unsupported = 8

pub record Socks5ParsedRequest : Type 0 where
  pub cmd : ℕ
  pub host : Bytes
  pub port : ℕ
  pub host_port : Bytes

-- An address of a fixed size.
read_ip : (Bytes → Bytes) → ℕ → M Bytes
read_ip ip_string size = do addr ← read_full size; pure (ip_string addr)

read_domain : M Bytes
read_domain = do size ← read_full 1; read_full (get_or size 0 0)

read_host : IpText → ℕ → M Bytes
unfolding read_ip read_domain
read_host t atyp =
    if atyp == socks5_atyp_ipv4
    then read_ip t.ip_string 4
    else if atyp == socks5_atyp_ipv6
    then read_ip t.ip_string 16
    else if atyp == socks5_atyp_domain
    then read_domain
    else fail (request_error socks5_status_atyp_unsupported)

unfoldable pub read_socks5_target : IpText → ℕ → M (Bytes × ℕ)
unfolding read_host
read_socks5_target t atyp = do
  host ← read_host t atyp
  port_bytes ← read_full 2
  pure (host, uint16 port_bytes)

unfoldable pub with_target : ℕ → Bytes × ℕ → Socks5ParsedRequest
with_target cmd (host, port) = record {
  cmd = cmd;
  host = host;
  port = port;
  host_port = join_host_port host (itoa port);
}

request_of : IpText → Bytes → M Socks5ParsedRequest
unfolding read_socks5_target with_target
request_of t header =
    if not (get_or header 0 0 == socks5_version)
    then fail (request_error socks5_status_general_error)
    else if not (get_or header 2 0 == 0)
    then fail (request_error socks5_status_general_error)
    else if not (get_or header 1 0 == socks5_cmd_connect)
        && not (get_or header 1 0 == socks5_cmd_udp_associate)
    then fail (request_error socks5_status_cmd_unsupported)
    else (do
      target ← read_socks5_target t (get_or header 3 0)
      pure (with_target (get_or header 1 0) target))

unfoldable pub parse_socks5_request : IpText → M Socks5ParsedRequest
unfolding request_of
parse_socks5_request t = do header ← read_full 4; request_of t header
