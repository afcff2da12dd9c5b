-- ===== src/Socks/Address.antt =====
-- socks.go: the address and port of a SOCKS5 message.
use cow.Base.{
  ℕ, ◌+◌, ◌*◌, ◌/◌, ◌%◌, ◌^◌, ◌≤◌, ◌<◌, ◌≡◌, refl, sym, ap, ◌∙◌, inl, inr, ◌||◌, Option, none, some,
  [], ◌∷◌, ◌++◌, arith, ltb, ◌==◌, if◌then◌else◌, Bool-cases, Option-cases, eq_of_some, length,
  get_or, take, length-drop, Bytes, last_index,
}
use cow.Std.Net.{IpText, to4}
use cow.Std.Strings.{trim_prefix_byte, trim_suffix_byte}

abbrev pub socks5_atyp_ipv4 : ℕ
socks5_atyp_ipv4 = 1

abbrev pub socks5_atyp_domain : ℕ
socks5_atyp_domain = 3

abbrev pub socks5_atyp_ipv6 : ℕ
socks5_atyp_ipv6 = 4

unfoldable pub trim_ipv6_zone : Bytes → Bytes
trim_ipv6_zone host = elim (last_index b'%' host) [ none ↦ host | some i ↦ take i host ]

-- `binary.BigEndian.PutUint16`, and `Uint16` of two bytes.
abbrev pub put_uint16 : ℕ → Bytes
put_uint16 port = (port / 256 % 256) ∷ (port % 256) ∷ []

abbrev pub uint16 : Bytes → ℕ
uint16 b = get_or b 0 0 * 256 + get_or b 1 0

-- An address that `net.ParseIP` read.
unfoldable pub ip_bytes : Bytes → Option Bytes
ip_bytes ip = elim (to4 ip) [
  | some ip4 ↦ some (socks5_atyp_ipv4 ∷ ip4)
  | none ↦ if length ip == 16 then some (socks5_atyp_ipv6 ∷ ip) else none
]

unfoldable pub domain_bytes : Bytes → Option Bytes
domain_bytes host =
    if length host == 0 || ltb 255 (length host)
    then none
    else some (socks5_atyp_domain ∷ (length host % 256) ∷ host)

unfoldable pub host_bytes : Bytes → Option Bytes → Option Bytes
unfolding ip_bytes domain_bytes
host_bytes host none = domain_bytes host
host_bytes host (some ip) = ip_bytes ip

with_port : ℕ → Option Bytes → Option Bytes
with_port port none = none
with_port port (some b) = some (b ++ put_uint16 port)

unfoldable pub build_socks5_addr_port : IpText → Bytes → ℕ → Option Bytes
unfolding host_bytes trim_ipv6_zone with_port
build_socks5_addr_port t host port =
    let name = trim_prefix_byte b'[' (trim_suffix_byte b']' host) in
    with_port port (host_bytes name (t.parse_ip (trim_ipv6_zone name)))

-- The host that a name stands for: the text of the address, if it is one, or the name.
unfoldable pub meant_by : IpText → Bytes → Option Bytes → Bytes
meant_by t name none = name
meant_by t name (some ip) = elim (to4 ip) [ some ip4 ↦ t.ip_string ip4 | none ↦ t.ip_string ip ]

-- The host that is asked for: without the brackets of an IPv6 address and the zone behind it.
unfoldable pub host_meant : IpText → Bytes → Bytes
unfolding meant_by
host_meant t host =
    let name = trim_prefix_byte b'[' (trim_suffix_byte b']' host) in
    meant_by t name (t.parse_ip (trim_ipv6_zone name))

-- An address and port as `buildSocks5AddrPort` writes them.
pub data IsAddrPort : Bytes → Type 0 where
  ipv4 :
      (ip : Bytes) (port : ℕ) (b : Bytes)
      → length ip ≡ 4
      → b ≡ socks5_atyp_ipv4 ∷ (ip ++ put_uint16 port)
      → IsAddrPort b
  ipv6 :
      (ip : Bytes) (port : ℕ) (b : Bytes)
      → length ip ≡ 16
      → b ≡ socks5_atyp_ipv6 ∷ (ip ++ put_uint16 port)
      → IsAddrPort b
  domain :
      (host : Bytes) (port : ℕ) (b : Bytes)
      → 0 < length host
      → length host ≤ 255
      → b ≡ socks5_atyp_domain ∷ length host ∷ (host ++ put_uint16 port)
      → IsAddrPort b

to4-length : (ip ip4 : Bytes) → to4 ip ≡ some ip4 → length ip4 ≡ 4
unfolding to4
to4-length ip ip4 e = ground (arith, length-drop 12 ip)

-- The host and the port of an encoded address.
abbrev pub target_of : IpText → {b : Bytes} → IsAddrPort b → Bytes × ℕ
target_of t (ipv4 ip port b l e) = (t.ip_string ip, port % 2 ^ 16)
target_of t (ipv6 ip port b l e) = (t.ip_string ip, port % 2 ^ 16)
target_of t (domain host port b l m e) = (host, port % 2 ^ 16)

module _ (t : IpText) (port : ℕ) (b : Bytes) where
  -- The bytes are an encoding of the host and the port.
  abbrev Encodes : Bytes → Type 0
  Encodes host = (a : IsAddrPort b) × (target_of t a ≡ (host, port % 2 ^ 16))

  domain_bytes-Encodes : (host : Bytes) → with_port port (domain_bytes host) ≡ some b → Encodes host
  unfolding with_port domain_bytes
  domain_bytes-Encodes host e = elim (Bool-cases (length host == 0 || ltb 255 (length host))) [
    | inl y ↦ absurd (cc (rw (y, with_port) at e))
    | inr n ↦
        let size : length host % 256 ≡ length host = ground arith in
        (
          domain host port b (ground arith) (ground arith) (
              sym (eq_of_some (rw (n, with_port) at e))
              ∙ ap (λ k. socks5_atyp_domain ∷ k ∷ (host ++ put_uint16 port)) size),
          refl,
        )
  ]

  ip_bytes-Encodes :
      (name ip : Bytes)
      → with_port port (ip_bytes ip) ≡ some b
      → Encodes (meant_by t name (some ip))
  unfolding with_port ip_bytes meant_by
  ip_bytes-Encodes name ip e = elim (Option-cases (to4 ip)) [
    | inr (ip4, f) ↦
        rw (f, meant_by)
          (
            ipv4 ip4 port b (to4-length ip ip4 f)
                (sym (eq_of_some (rw (f, ip_bytes, with_port) at e))),
            refl,
          )
    | inl f ↦ elim (Bool-cases (length ip == 16)) [
      | inl y ↦
          rw (f, meant_by)
            (
              ipv6 ip port b (ground arith)
                  (sym (eq_of_some (rw (f, ip_bytes, y, with_port) at e))),
              refl,
            )
      | inr n ↦ absurd (cc (rw (f, ip_bytes, n, with_port) at e))
    ]
  ]

  host_bytes-Encodes :
      (name : Bytes) (o : Option Bytes)
      → with_port port (host_bytes name o) ≡ some b
      → Encodes (meant_by t name o)
  unfolding host_bytes meant_by
  host_bytes-Encodes name none e = domain_bytes-Encodes name e
  host_bytes-Encodes name (some ip) e = ip_bytes-Encodes name ip e

  -- What `buildSocks5AddrPort` makes is an IPv4 or IPv6 address, or a name of 1 to 255 bytes with
  -- its length in front, and the port behind: those of the host and port it was asked for.
  pub build_socks5_addr_port-Encodes :
      (host : Bytes) → build_socks5_addr_port t host port ≡ some b → Encodes (host_meant t host)
  unfolding build_socks5_addr_port host_meant
  build_socks5_addr_port-Encodes host e =
      let name = trim_prefix_byte b'[' (trim_suffix_byte b']' host) in
      host_bytes-Encodes name (t.parse_ip (trim_ipv6_zone name)) e
