-- ===== src/Socks/Datagram/Bounds.antt =====
-- socks.go: parsing a datagram stays within it.
use cow.Base.{
  ℕ, zero, suc, ◌+◌, ◌-◌, ◌≤◌, ◌<◌, ◌≡◌, refl, ◌≢◌, inl, inr, not, ◌||◌, some, [], ◌∷◌, arith, ltb,
  ◌==◌, if◌then◌else◌, Bool-cases, length, get_elem?, take, drop, Bytes,
}
use cow.Std.Net.{IpText}
use cow.Socks.Address.{socks5_atyp_ipv4, socks5_atyp_domain, socks5_atyp_ipv6}
use cow.Socks.Datagram.{
  malformed, out_of_range, slice, target, ip_target, domain_target, address_target, header_target,
  parse_socks5_udp_datagram,
}

pub slice_in :
    (packet : Bytes) (from to : ℕ)
    → from ≤ to
    → to ≤ length packet
    → slice packet from to ≡ some (take (to - from) (drop from packet))
slice_in packet from to h k = ground arith

-- Past the length checks, no index or slice leaves the packet.
target-ne-out :
    (f : Bytes → Bytes) (packet : Bytes) (from off : ℕ)
    → from ≤ off
    → off + 2 ≤ length packet
    → target f packet off (slice packet from off) ≢ out_of_range
unfolding target
target-ne-out f packet from off h k e = absurd (
    cc (
      rw
        (
          slice_in packet from off h (omega arith),
          target,
          slice_in packet off (off + 2) (omega arith) k,
        )
        at e))

get_elem?_in : (l : Bytes) (i : ℕ) → i < length l → (v : ℕ) × (get_elem? l i ≡ some v)
get_elem?_in [] i h = elim h [ ]
get_elem?_in (x ∷ l) zero h = (x, refl)
get_elem?_in (x ∷ l) (suc i) h = get_elem?_in l i (omega arith)

ip_target-ne-out :
    (f : Bytes → Bytes) (packet : Bytes) (size : ℕ) → ip_target f packet size ≢ out_of_range
unfolding ip_target
ip_target-ne-out f packet size e = elim (Bool-cases (ltb (length packet) (4 + size + 2))) [
  | inl y ↦ absurd (cc (rw y at e))
  | inr n ↦ target-ne-out f packet 4 (4 + size) (omega arith) (ground arith) (rw n at e)
]

domain_target-ne-out : (packet : Bytes) (size : ℕ) → domain_target packet (some size) ≢ out_of_range
unfolding domain_target
domain_target-ne-out packet size e =
    elim (Bool-cases (size == 0 || ltb (length packet) (5 + size + 2))) [
      | inl y ↦ absurd (cc (rw y at e))
      | inr n ↦ target-ne-out (λ h. h) packet 5 (5 + size) (omega arith) (ground arith) (rw n at e)
    ]

domain_checked :
    (packet : Bytes)
    → (if ltb (length packet) 5 then malformed 1 else domain_target packet (get_elem? packet 4))
      ≢ out_of_range
domain_checked packet e = elim (Bool-cases (ltb (length packet) 5)) [
  | inl y ↦ absurd (cc (rw y at e))
  | inr n ↦
      let (v, f) = get_elem?_in packet 4 (ground arith) in
      domain_target-ne-out packet v (rw (n, f) at e)
]

address_target-ne-out :
    (t : IpText) (packet : Bytes) (atyp : ℕ) → address_target t packet atyp ≢ out_of_range
unfolding address_target
address_target-ne-out t packet atyp e = elim (Bool-cases (atyp == socks5_atyp_ipv4)) [
  | inl y ↦ ip_target-ne-out t.ip_string packet 4 (rw y at e)
  | inr n ↦ elim (Bool-cases (atyp == socks5_atyp_ipv6)) [
    | inl y ↦ ip_target-ne-out t.ip_string packet 16 (rw (n, y) at e)
    | inr m ↦ elim (Bool-cases (atyp == socks5_atyp_domain)) [
      | inl y ↦ domain_checked packet (rw (n, m, y) at e)
      | inr o ↦ absurd (cc (rw (n, m, o) at e))
    ]
  ]
]

header_target-ne-out :
    (t : IpText) (packet l : Bytes) → 4 ≤ length l → header_target t packet l ≢ out_of_range
unfolding header_target
header_target-ne-out t packet [] h e = absurd (omega arith)
header_target-ne-out t packet (a ∷ []) h e = absurd (omega arith)
header_target-ne-out t packet (a ∷ b ∷ []) h e = absurd (omega arith)
header_target-ne-out t packet (a ∷ b ∷ c ∷ []) h e = absurd (omega arith)
header_target-ne-out t packet (a ∷ b ∷ frag ∷ atyp ∷ rest) h e =
    elim (Bool-cases (not (a == 0) || not (b == 0))) [
      | inl y ↦ absurd (cc (rw y at e))
      | inr n ↦ elim (Bool-cases (frag == 0)) [
        | inr m ↦ absurd (cc (rw (n, m) at e))
        | inl y ↦ address_target-ne-out t packet atyp (rw (n, y) at e)
      ]
    ]

-- Whatever bytes a datagram has, parsing it reads no byte and takes no slice beyond its end.
pub parse_datagram_bounds :
    (t : IpText) (packet : Bytes) → parse_socks5_udp_datagram t packet ≢ out_of_range
unfolding parse_socks5_udp_datagram
parse_datagram_bounds t packet e = elim (Bool-cases (ltb (length packet) 4)) [
  | inl y ↦ absurd (cc (rw y at e))
  | inr n ↦ header_target-ne-out t packet packet (ground arith) (rw n at e)
]
