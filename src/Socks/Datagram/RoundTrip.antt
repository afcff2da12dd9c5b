-- ===== src/Socks/Datagram/RoundTrip.antt =====
-- socks.go: what one side of the UDP relay builds, the other parses.
use cow.Base.{
  ℕ, ◌+◌, ◌-◌, ◌%◌, ◌^◌, ◌<◌, ◌≡◌, refl, sym, ap, ap₂, ◌∙◌, inl, inr, false, ◌||◌, Option, none,
  some, [], ◌∷◌, ◌++◌, arith, ltb, ◌==◌, Bool-cases, Option-cases, eq_of_some, length, take, drop,
  length-append, drop_at, take_at, Bytes, signed_lt, int64_half,
}
use mathlib.Core.List.{append_assoc}
use cow.Std.Strconv.{atoi, itoa}
use cow.Std.Net.{IpText, join_host_port, split_host_port}
use cow.Socks.Address.{
  uint16, put_uint16, build_socks5_addr_port, IsAddrPort, ipv4, ipv6, domain, host_meant, target_of,
  build_socks5_addr_port-Encodes,
}
use cow.Socks.Datagram.{
  datagram, slice, target, ip_target, domain_target, address_target, header_target,
  parse_socks5_udp_datagram, with_header, build_at, build_socks5_udp_datagram,
}
use cow.Socks.Datagram.Bounds.{slice_in}

pub uint16-put : (port : ℕ) → uint16 (put_uint16 port) ≡ port % 2 ^ 16
uint16-put port = omega arith

-- The text of a host and a port.
abbrev text_at : Bytes × ℕ → Bytes
text_at (host, port) = join_host_port host (itoa port)

-- A host of a known length behind `pre`, then its port and the payload.
target_at :
    (f : Bytes → Bytes) (packet pre host payload : Bytes) (port from off : ℕ)
    → packet ≡ pre ++ (host ++ (put_uint16 port ++ payload))
    → length pre ≡ from
    → from + length host ≡ off
    → target f packet off (slice packet from off)
      ≡ datagram (join_host_port (f host) (itoa (port % 2 ^ 16))) payload
unfolding target
target_at f packet pre host payload port from off e l m =
    rw
      (
        slice_in packet from off (omega arith) (omega (arith, size)),
        target,
        slice_in packet off (off + 2) (omega arith) (omega (arith, size)),
      )
      (ap₂ datagram
        (ap₂ join_host_port (ap f host_is) (ap itoa (ap uint16 port_is ∙ uint16-put port)))
        (drop_at (off + 2) packet (pre ++ (host ++ put_uint16 port)) payload behind_port (
          omega (
            arith,
            length-append pre (host ++ put_uint16 port),
            length-append host (put_uint16 port),
          ))))
  where
    tail : Bytes
    tail = put_uint16 port ++ payload

    size : length packet ≡ length pre + (length host + (2 + length payload))
    size = omega (
      arith,
      ap length e,
      length-append pre (host ++ (put_uint16 port ++ payload)),
      length-append host (put_uint16 port ++ payload),
    )

    host_is : take (off - from) (drop from packet) ≡ host
    host_is =
        take_at (off - from) (drop from packet) host tail
          (drop_at from packet pre (host ++ tail) e l) (omega arith)

    rest_is : drop off packet ≡ put_uint16 port ++ payload
    rest_is =
        drop_at off packet (pre ++ host) tail (e ∙ sym (append_assoc pre host tail))
          (omega (arith, length-append pre host))

    port_is : take (off + 2 - off) (drop off packet) ≡ put_uint16 port
    port_is =
        let two : off + 2 - off ≡ 2 = omega arith in
        rw two (take_at 2 (drop off packet) (put_uint16 port) payload rest_is refl)

    behind_port : packet ≡ (pre ++ (host ++ put_uint16 port)) ++ payload
    behind_port =
        rw
          (
            append_assoc pre (host ++ put_uint16 port) payload,
            append_assoc host (put_uint16 port) payload,
          )
          e

-- A packet of the relay: the header, an address and port, and the payload.
abbrev packet_of : Bytes → Bytes → Bytes
packet_of b payload = 0 ∷ 0 ∷ 0 ∷ (b ++ payload)

module _ (t : IpText) (payload host : Bytes) (port : ℕ) where
  -- The packet with the bytes in front of `host` as given.
  abbrev at : Bytes → Bytes
  at pre = pre ++ (host ++ (put_uint16 port ++ payload))

  at-length : (pre : Bytes) → length (at pre) ≡ length pre + (length host + (2 + length payload))
  at-length pre = omega (
    arith,
    length-append pre (host ++ (put_uint16 port ++ payload)),
    length-append host (put_uint16 port ++ payload),
  )

  parse-at_ipv4 :
      length host ≡ 4
      → parse_socks5_udp_datagram t (at (0 ∷ 0 ∷ 0 ∷ 1 ∷ []))
        ≡ datagram (join_host_port (t.ip_string host) (itoa (port % 2 ^ 16))) payload
  unfolding parse_socks5_udp_datagram header_target address_target ip_target
  parse-at_ipv4 l =
      let size = at-length (0 ∷ 0 ∷ 0 ∷ 1 ∷ []) in
      let header : ltb (length (at (0 ∷ 0 ∷ 0 ∷ 1 ∷ []))) 4 ≡ false = ground arith in
      let whole : ltb (length (at (0 ∷ 0 ∷ 0 ∷ 1 ∷ []))) (4 + 4 + 2) ≡ false = ground arith in
      rw (header, whole)
        (target_at t.ip_string (at (0 ∷ 0 ∷ 0 ∷ 1 ∷ [])) (0 ∷ 0 ∷ 0 ∷ 1 ∷ []) host payload port 4
          (4 + 4) refl refl (omega arith))

  parse-at_ipv6 :
      length host ≡ 16
      → parse_socks5_udp_datagram t (at (0 ∷ 0 ∷ 0 ∷ 4 ∷ []))
        ≡ datagram (join_host_port (t.ip_string host) (itoa (port % 2 ^ 16))) payload
  unfolding parse_socks5_udp_datagram header_target address_target ip_target
  parse-at_ipv6 l =
      let size = at-length (0 ∷ 0 ∷ 0 ∷ 4 ∷ []) in
      let header : ltb (length (at (0 ∷ 0 ∷ 0 ∷ 4 ∷ []))) 4 ≡ false = ground arith in
      let whole : ltb (length (at (0 ∷ 0 ∷ 0 ∷ 4 ∷ []))) (4 + 16 + 2) ≡ false = ground arith in
      rw (header, whole)
        (target_at t.ip_string (at (0 ∷ 0 ∷ 0 ∷ 4 ∷ [])) (0 ∷ 0 ∷ 0 ∷ 4 ∷ []) host payload port 4
          (4 + 16) refl refl (omega arith))

  parse-at_domain :
      0 < length host
      → parse_socks5_udp_datagram t (at (0 ∷ 0 ∷ 0 ∷ 3 ∷ length host ∷ []))
        ≡ datagram (join_host_port host (itoa (port % 2 ^ 16))) payload
  unfolding parse_socks5_udp_datagram header_target address_target domain_target
  parse-at_domain l =
      let size = at-length (0 ∷ 0 ∷ 0 ∷ 3 ∷ length host ∷ []) in
      let header : ltb (length (at (0 ∷ 0 ∷ 0 ∷ 3 ∷ length host ∷ []))) 4 ≡ false = ground arith in
      let long : ltb (length (at (0 ∷ 0 ∷ 0 ∷ 3 ∷ length host ∷ []))) 5 ≡ false = ground arith in
      let whole : (length host == 0
            || ltb (length (at (0 ∷ 0 ∷ 0 ∷ 3 ∷ length host ∷ []))) (5 + length host + 2))
          ≡ false =
        ground arith in
      rw (header, long, whole)
        (target_at (λ h. h) (at (0 ∷ 0 ∷ 0 ∷ 3 ∷ length host ∷ []))
          (0 ∷ 0 ∷ 0 ∷ 3 ∷ length host ∷ []) host payload port 5 (5 + length host) refl refl refl)

parse-packet_of :
    (t : IpText) (b payload : Bytes) (a : IsAddrPort b)
    → parse_socks5_udp_datagram t (packet_of b payload) ≡ datagram (text_at (target_of t a)) payload
parse-packet_of t b payload (ipv4 ip port c l e) =
    ap (λ k. parse_socks5_udp_datagram t (packet_of k payload)) e
    ∙ ap (λ k. parse_socks5_udp_datagram t (0 ∷ 0 ∷ 0 ∷ 1 ∷ k))
        (append_assoc ip (put_uint16 port) payload)
    ∙ parse-at_ipv4 t payload ip port l
parse-packet_of t b payload (ipv6 ip port c l e) =
    ap (λ k. parse_socks5_udp_datagram t (packet_of k payload)) e
    ∙ ap (λ k. parse_socks5_udp_datagram t (0 ∷ 0 ∷ 0 ∷ 4 ∷ k))
        (append_assoc ip (put_uint16 port) payload)
    ∙ parse-at_ipv6 t payload ip port l
parse-packet_of t b payload (domain host port c l m e) =
    ap (λ k. parse_socks5_udp_datagram t (packet_of k payload)) e
    ∙ ap (λ k. parse_socks5_udp_datagram t (0 ∷ 0 ∷ 0 ∷ 3 ∷ length host ∷ k))
        (append_assoc host (put_uint16 port) payload)
    ∙ parse-at_domain t payload host port l

packet_of_header :
    (payload packet : Bytes) (o : Option Bytes)
    → with_header payload o ≡ some packet
    → (b : Bytes) × (o ≡ some b) × (packet ≡ packet_of b payload)
unfolding with_header
packet_of_header payload packet none e = absurd (cc e)
packet_of_header payload packet (some b) e = (b, refl, sym (eq_of_some e))

packet_of_port :
    (t : IpText) (host payload packet : Bytes) (o : Option ℕ)
    → build_at t host payload o ≡ some packet
    → (port : ℕ) × (o ≡ some port)
      × (parse_socks5_udp_datagram t packet
          ≡ datagram (text_at (host_meant t host, port % 2 ^ 16)) payload)
unfolding build_at
packet_of_port t host payload packet none e = absurd (cc e)
packet_of_port t host payload packet (some port) e =
    elim (Bool-cases (signed_lt int64_half port 0 || signed_lt int64_half 0xffff port)) [
      | inl y ↦ absurd (cc (rw y at e))
      | inr n ↦
          let (b, f, g) =
            packet_of_header payload packet (build_socks5_addr_port t host (port % 2 ^ 16))
              (rw n at e) in
          let (a, h) = build_socks5_addr_port-Encodes t (port % 2 ^ 16) b host f in
          let once : port % 2 ^ 16 % 2 ^ 16 ≡ port % 2 ^ 16 = omega arith in
          (
            port,
            refl,
            ap (parse_socks5_udp_datagram t) g
                ∙ parse-packet_of t b payload a
                ∙ ap (λ k. datagram (text_at k) payload) h
                ∙ ap (λ k. datagram (text_at (host_meant t host, k)) payload) once,
          )
    ]

-- What `buildSocks5UDPDatagram` makes of an address and a payload, `parseSocks5UDPDatagram` takes
-- apart: the payload is the same, and the target is the host in the address, without brackets and
-- with an IP address in its usual form, and the port in the address, modulo 2^16.
pub parse-build_datagram :
    (t : IpText) (addr payload packet : Bytes)
    → build_socks5_udp_datagram t addr payload ≡ some packet
    → (host : Bytes) × (digits : Bytes) × (port : ℕ) × (split_host_port addr ≡ some (host, digits))
      × (atoi digits ≡ some port)
      × (parse_socks5_udp_datagram t packet
          ≡ datagram (join_host_port (host_meant t host) (itoa (port % 2 ^ 16))) payload)
unfolding build_socks5_udp_datagram
parse-build_datagram t addr payload packet e = elim (Option-cases (split_host_port addr)) [
  | inl f ↦ absurd (cc (rw (f, build_socks5_udp_datagram) at e))
  | inr ((host, digits), f) ↦
      let (port, g, h) =
        packet_of_port t host payload packet (atoi digits)
          (rw (f, build_socks5_udp_datagram) at e) in
      (host, digits, port, f, g, h)
]
