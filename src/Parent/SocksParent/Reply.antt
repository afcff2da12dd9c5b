-- ===== src/Parent/SocksParent/Reply.antt =====
-- parent_proxy.go: what is sent and read on a connection to a SOCKS5 parent, and its reply.
use cow.Base.{
  ℕ, zero, suc, ◌≡◌, refl, sym, ap, subst, ◌∙◌, inl, inr, [], ◌∷◌, ◌++◌, arith, leb, ◌==◌, ==_iff,
  Bool-cases, length, get_or, Bytes,
}
use mathlib.Core.List.{append_assoc, append-nil}
use cow.Socks.Session.{Session, Outcome, ok, read_full, read_of, write, write_left}
use cow.Socks.Address.{socks5_atyp_ipv4, socks5_atyp_domain, socks5_atyp_ipv6}
use cow.Socks.Method.Access.{and_then-inv, read_full-inv}
use cow.Parent.SocksParent.{
  skip_bytes, skip_domain, read_socks5_address, reply_status, reply_rest, reply_of,
  read_socks5_connect_reply,
}

-- From one state to the next, so much was sent and so much was taken off the answers.
pub record Moves (s t : Session) (sent got : Bytes) : Type 0 where
  pub wrote : t.output ≡ s.output ++ sent
  pub took : s.input ≡ got ++ t.input

pub and_Moves :
    {s t u : Session} {a b c d : Bytes}
    → Moves s t a b
    → Moves t u c d
    → Moves s u (a ++ c) (b ++ d)
and_Moves {s} {t} {u} {a} {b} {c} {d} m n = record {
  wrote = n.wrote ∙ ap (λ k. k ++ c) (m.wrote) ∙ append_assoc s.output a c;
  took = m.took ∙ ap (λ k. b ++ k) (n.took) ∙ sym (append_assoc b d u.input);
}

write_left-Moves :
    (k : ℕ) (b : Bytes) (s t : Session) → write_left k b s ≡ (ok tt, t) → Moves s t b []
unfolding write_left
write_left-Moves zero b s t e = absurd (cc e)
write_left-Moves (suc k) b s t e = record {
  wrote = sym (ap (λ (p : Outcome (Unit {0}) × Session). p.1.output) e);
  took = ap (λ (p : Outcome (Unit {0}) × Session). p.1.input) e;
}

pub write-Moves : (b : Bytes) (s t : Session) → write b s ≡ (ok tt, t) → Moves s t b []
unfolding write
write-Moves b s t e = write_left-Moves s.writes b s t e

read_of-output :
    (n : ℕ) (input : Bytes) (s t : Session) (b : Bytes)
    → read_of n input s ≡ (ok b, t)
    → t.output ≡ s.output
unfolding read_of
read_of-output n input s t b e = elim (Bool-cases (leb n (length input))) [
  | inr k ↦ absurd (cc (rw k at e))
  | inl y ↦ sym (ap (λ (p : Outcome Bytes × Session). p.1.output) (rw y at e))
]

pub read_full-Moves :
    (n : ℕ) (s t : Session) (b : Bytes)
    → read_full n s ≡ (ok b, t)
    → Moves s t [] b × (length b ≡ n)
unfolding read_full
read_full-Moves n s t b e =
    let (i, l, a) = read_full-inv n s t b e in
    (record { wrote = read_of-output n s.input s t b e ∙ sym (append-nil s.output); took = i }, l)

skip_bytes-Moves :
    (n : ℕ) (s t : Session)
    → skip_bytes n s ≡ (ok tt, t)
    → (b : Bytes) × Moves s t [] b × (length b ≡ n)
unfolding skip_bytes
skip_bytes-Moves n s t e =
    let (b, u, f, g) = and_then-inv (read_full n s) _ tt t e in
    let (m, l) = read_full-Moves n s u b f in
    (b, subst (λ k. Moves s k [] b) (ap (λ (p : Outcome (Unit {0}) × Session). p.1) g) m, l)

-- The bytes of an address of that type.
pub data IsAddress : ℕ → Bytes → Type 0 where
  four : (b : Bytes) → length b ≡ 4 → IsAddress 1 b
  sixteen : (b : Bytes) → length b ≡ 16 → IsAddress 4 b
  named : (n : ℕ) (b : Bytes) → length b ≡ n → IsAddress 3 (n ∷ b)

skip_domain-Moves :
    (s t : Session)
    → skip_domain s ≡ (ok tt, t)
    → (n : ℕ) × (b : Bytes) × Moves s t [] (n ∷ b) × (length b ≡ n)
unfolding skip_domain
skip_domain-Moves s t e =
    let (size, u, f, g) = and_then-inv (read_full 1 s) _ tt t e in
    let (m, l) = read_full-Moves 1 s u size f in
    let (b, m', l') = skip_bytes-Moves (get_or size 0 0) u t g in
    (get_or size 0 0, b, subst (λ k. Moves s t [] (k ++ b)) (single size l) (and_Moves m m'), l')
  where
    single : (b : Bytes) → length b ≡ 1 → b ≡ get_or b 0 0 ∷ []
    single [] e = absurd (omega arith)
    single (x ∷ []) e = refl
    single (x ∷ y ∷ b) e = absurd (omega arith)

read_socks5_address-Moves :
    (atyp : ℕ) (s t : Session)
    → read_socks5_address atyp s ≡ (ok tt, t)
    → (b : Bytes) × Moves s t [] b × IsAddress atyp b
unfolding read_socks5_address
read_socks5_address-Moves atyp s t e = elim (Bool-cases (atyp == socks5_atyp_ipv4)) [
  | inl y ↦
      let (b, m, l) = skip_bytes-Moves 4 s t (rw y at e) in
      (b, m, subst (λ k. IsAddress k b) (sym ((==_iff atyp 1).0 y)) (four b l))
  | inr y ↦ elim (Bool-cases (atyp == socks5_atyp_ipv6)) [
    | inl z ↦
        let (b, m, l) = skip_bytes-Moves 16 s t (rw (y, z) at e) in
        (b, m, subst (λ k. IsAddress k b) (sym ((==_iff atyp 4).0 z)) (sixteen b l))
    | inr z ↦ elim (Bool-cases (atyp == socks5_atyp_domain)) [
      | inl d ↦
          let (n, b, m, l) = skip_domain-Moves s t (rw (y, z, d) at e) in
          (n ∷ b, m, subst (λ k. IsAddress k (n ∷ b)) (sym ((==_iff atyp 3).0 d)) (named n b l))
      | inr d ↦ absurd (cc (rw (y, z, d) at e))
    ]
  ]
]

-- A reply that says that the connection was made.
pub record IsReply (reply : Bytes) : Type 0 where
  pub header : Bytes
  pub address : Bytes
  pub port : Bytes
  pub parts : reply ≡ header ++ (address ++ port)
  pub header_size : length header ≡ 4
  pub version : get_or header 0 0 ≡ 5
  pub succeeded : get_or header 1 0 ≡ 0
  pub of_type : IsAddress (get_or header 3 0) address
  pub port_size : length port ≡ 2

reply_status-ok :
    (header : Bytes) (s t : Session)
    → reply_status header s ≡ (ok tt, t)
    → (get_or header 1 0 ≡ 0) × (t ≡ s)
unfolding reply_status
reply_status-ok header s t e = elim (Bool-cases (get_or header 1 0 == 0)) [
  | inl y ↦ (
    (==_iff (get_or header 1 0) 0).0 y,
    sym (ap (λ (p : Outcome (Unit {0}) × Session). p.1) (rw y at e)),
  )
  | inr n ↦ absurd (cc (rw n at e))
]

reply_rest-Moves :
    (header : Bytes) (s t : Session)
    → reply_rest header s ≡ (ok tt, t)
    → (address : Bytes) × (port : Bytes) × Moves s t [] (address ++ port)
      × IsAddress (get_or header 3 0) address
      × (length port ≡ 2)
      × (get_or header 1 0 ≡ 0)
unfolding reply_rest
reply_rest-Moves header s t e =
    let (x, u, f, g) = and_then-inv (read_socks5_address (get_or header 3 0) s) _ tt t e in
    let (y, v, h, i) = and_then-inv (skip_bytes 2 u) _ tt t g in
    let (address, m, k) = read_socks5_address-Moves (get_or header 3 0) s u f in
    let (port, m', l) = skip_bytes-Moves 2 u v h in
    let (z, same) = reply_status-ok header v t i in
    (
      address,
      port,
      subst (λ w. Moves s w [] (address ++ port)) (sym same) (and_Moves m m'),
      k,
      l,
      z,
    )

reply_of-Moves :
    (header : Bytes) (s u t : Session)
    → Moves s u [] header
    → length header ≡ 4
    → reply_of header u ≡ (ok tt, t)
    → (reply : Bytes) × Moves s t [] reply × IsReply reply
unfolding reply_of
reply_of-Moves header s u t m l e = elim (Bool-cases (get_or header 0 0 == 5)) [
  | inr n ↦ absurd (cc (rw n at e))
  | inl y ↦
      let (address, port, m', k, q, z) = reply_rest-Moves header u t (rw y at e) in
      (
        header ++ (address ++ port),
        and_Moves m m',
        record {
          header = header;
          address = address;
          port = port;
          parts = refl;
          header_size = l;
          version = (==_iff (get_or header 0 0) 5).0 y;
          succeeded = z;
          of_type = k;
          port_size = q;
        },
      )
]

pub read_answer-Moves :
    (s t : Session)
    → read_socks5_connect_reply s ≡ (ok tt, t)
    → (reply : Bytes) × Moves s t [] reply × IsReply reply
unfolding read_socks5_connect_reply
read_answer-Moves s t e =
    let (header, u, f, g) = and_then-inv (read_full 4 s) _ tt t e in
    let (m, l) = read_full-Moves 4 s u header f in reply_of-Moves header s u t m l g
