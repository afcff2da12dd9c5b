-- ===== src/Socks/Datagram.antt =====
-- socks.go: datagrams of the UDP relay.
pub mod Bounds
pub mod RoundTrip
use cow.Base.{
  ℕ, ◌+◌, ◌-◌, ◌%◌, ◌^◌, not, ◌&&◌, ◌||◌, Option, none, some, ◌∷◌, ◌++◌, ltb, leb, ◌==◌,
  if◌then◌else◌, length, get_elem?, take, drop, Bytes, signed_lt, int64_half,
}
use cow.Std.Strconv.{atoi, itoa}
use cow.Std.Net.{IpText, join_host_port, split_host_port}
use cow.Socks.Address.{
  socks5_atyp_ipv4, socks5_atyp_domain, socks5_atyp_ipv6, uint16, build_socks5_addr_port,
}

-- `malformed` carries the reply code of the error; `out_of_range` is the panic of an index or a
-- slice beyond the packet.
pub data Parsed : Type 0 where
  datagram : Bytes → Bytes → Parsed
  malformed : ℕ → Parsed
  out_of_range : Parsed

-- `packet[from:to]`
abbrev pub slice : Bytes → ℕ → ℕ → Option Bytes
slice packet from to =
    if leb from to && leb to (length packet)
    then some (take (to - from) (drop from packet))
    else none

-- The port at `off`, and the payload behind it.
target : (Bytes → Bytes) → Bytes → ℕ → Option Bytes → Parsed
target host_text packet off none = out_of_range
target host_text packet off (some host) = elim (slice packet off (off + 2)) [
  | none ↦ out_of_range
  | some port ↦
      datagram (join_host_port (host_text host) (itoa (uint16 port))) (drop (off + 2) packet)
]

ip_target : (Bytes → Bytes) → Bytes → ℕ → Parsed
unfolding target
ip_target ip_string packet size =
    if ltb (length packet) (4 + size + 2)
    then malformed 1
    else target ip_string packet (4 + size) (slice packet 4 (4 + size))

domain_target : Bytes → Option ℕ → Parsed
unfolding target
domain_target packet none = out_of_range
domain_target packet (some size) =
    if size == 0 || ltb (length packet) (5 + size + 2)
    then malformed 1
    else target (λ h. h) packet (5 + size) (slice packet 5 (5 + size))

address_target : IpText → Bytes → ℕ → Parsed
unfolding ip_target domain_target
address_target t packet atyp =
    if atyp == socks5_atyp_ipv4
    then ip_target t.ip_string packet 4
    else if atyp == socks5_atyp_ipv6
    then ip_target t.ip_string packet 16
    else if atyp == socks5_atyp_domain
    then if ltb (length packet) 5 then malformed 1 else domain_target packet (get_elem? packet 4)
    else malformed 8

-- The four bytes of the header.
header_target : IpText → Bytes → Bytes → Parsed
unfolding address_target
header_target t packet (a ∷ b ∷ frag ∷ atyp ∷ rest) =
    if not (a == 0) || not (b == 0)
    then malformed 1
    else if not (frag == 0)
    then malformed 7
    else address_target t packet atyp
header_target t packet _ = out_of_range

unfoldable pub parse_socks5_udp_datagram : IpText → Bytes → Parsed
unfolding header_target
parse_socks5_udp_datagram t packet =
    if ltb (length packet) 4 then malformed 1 else header_target t packet packet

with_header : Bytes → Option Bytes → Option Bytes
with_header payload none = none
with_header payload (some addr_port) = some (0 ∷ 0 ∷ 0 ∷ (addr_port ++ payload))

build_at : IpText → Bytes → Bytes → Option ℕ → Option Bytes
unfolding with_header
build_at t host payload none = none
build_at t host payload (some port) =
    if signed_lt int64_half port 0 || signed_lt int64_half 0xffff port
    then none
    else with_header payload (build_socks5_addr_port t host (port % 2 ^ 16))

unfoldable pub build_socks5_udp_datagram : IpText → Bytes → Bytes → Option Bytes
unfolding build_at
build_socks5_udp_datagram t addr payload = elim (split_host_port addr) [
  | none ↦ none
  | some (host, port_str) ↦ build_at t host payload (atoi port_str)
]
