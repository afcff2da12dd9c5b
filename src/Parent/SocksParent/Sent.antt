-- ===== src/Parent/SocksParent/Sent.antt =====
-- parent_proxy.go: what `socksParent.connect` sends to the parent and what it takes off its answers.
use cow.Base.{
  ℕ, ◌%◌, ◌^◌, ◌≡◌, refl, sym, ap, ap₂, subst, ◌∙◌, inl, inr, true, false, not, ◌||◌, Option, none,
  some, [], ◌∷◌, ◌++◌, arith, ◌==◌, if◌then◌else◌, Bool-cases, Option-cases, length, get_or, Bytes,
  signed_lt, int64_half,
}
use mathlib.Core.List.{append-nil}
use cow.Std.Strconv.{atoi}
use cow.Std.Net.{IpText}
use cow.Url.{Url}
use cow.Socks.Session.{Session, Outcome, ok, read_full, write}
use cow.Socks.Address.{build_socks5_addr_port}
use cow.Socks.Method.Access.{and_then-inv, two_bytes}
use cow.Socks.Request.Reads.{request_with}
use cow.Parent.SocksParent.{
  SocksParent, has_name, credentials, authenticate, accepted, request_to, request_at,
  method_selection, is_bad_method, with_method, on_method, connect, differs,
}
use cow.Parent.SocksParent.Reply.{
  Moves, and_Moves, write-Moves, read_full-Moves, IsReply, read_answer-Moves,
}

accepted-ok :
    (r : Bytes) (s t : Session)
    → length r ≡ 2
    → accepted r s ≡ (ok tt, t)
    → (r ≡ 1 ∷ 0 ∷ []) × (t ≡ s)
unfolding accepted
accepted-ok r s t l e = elim (Bool-cases (not (get_or r 0 0 == 1) || not (get_or r 1 0 == 0))) [
  | inl y ↦ absurd (cc (rw y at e))
  | inr n ↦
      let first : get_or r 0 0 ≡ 1 = ground arith in
      let second : get_or r 1 0 ≡ 0 = ground arith in
      (
        two_bytes r l ∙ ap₂ (λ x y. x ∷ y ∷ []) first second,
        sym (ap (λ (p : Outcome (Unit {0}) × Session). p.1) (rw n at e)),
      )
]

authenticate-Moves :
    (sp : SocksParent) (s t : Session)
    → authenticate sp s ≡ (ok tt, t)
    → Moves s t (credentials sp) (1 ∷ 0 ∷ [])
unfolding authenticate
authenticate-Moves sp s t e =
    let (x, u, f, g) = and_then-inv (write (credentials sp) s) _ tt t e in
    let (r, v, h, i) = and_then-inv (read_full 2 u) _ tt t g in
    let (m, l) = read_full-Moves 2 u v r h in
    let (two, same) = accepted-ok r v t l i in
    subst (λ w. Moves s w (credentials sp) (1 ∷ 0 ∷ [])) (sym same)
      (subst (λ k. Moves s v (credentials sp) k) two
        (subst (λ k. Moves s v k r) (append-nil (credentials sp))
          (and_Moves (write-Moves (credentials sp) s u f) m)))

-- The request that was sent, and the parent's answer to it.
record Requested (t : IpText) (url : Url) (s s' : Session) : Type 0 where
  port : ℕ
  addr_port : Bytes
  reply : Bytes
  port_of : atoi url.port ≡ some port
  in_range : (signed_lt int64_half port 0 || signed_lt int64_half 65535 port) ≡ false
  encoded : build_socks5_addr_port t url.host (port % 2 ^ 16) ≡ some addr_port
  moved : Moves s s' (request_with 1 addr_port) reply
  is_reply : IsReply reply

request_to-Moves :
    (addr_port : Bytes) (s s' : Session)
    → request_to (some addr_port) s ≡ (ok tt, s')
    → (reply : Bytes) × Moves s s' (request_with 1 addr_port) reply × IsReply reply
unfolding request_to
request_to-Moves addr_port s s' e =
    let (x, u, f, g) = and_then-inv (write (request_with 1 addr_port) s) _ tt s' e in
    let (reply, m, r) = read_answer-Moves u s' g in
    (
      reply,
      subst (λ k. Moves s s' k reply) (append-nil (request_with 1 addr_port))
          (and_Moves (write-Moves (request_with 1 addr_port) s u f) m),
      r,
    )

request_at-Requested :
    (t : IpText) (url : Url) (o : Option ℕ) (s s' : Session)
    → atoi url.port ≡ o
    → request_at t url o s ≡ (ok tt, s')
    → Requested t url s s'
unfolding request_at request_to
request_at-Requested t url none s s' a e = absurd (cc e)
request_at-Requested t url (some port) s s' a e =
    elim (Bool-cases (signed_lt int64_half port 0 || signed_lt int64_half 65535 port)) [
      | inl y ↦ absurd (cc (rw y at e))
      | inr n ↦ elim (Option-cases (build_socks5_addr_port t url.host (port % 2 ^ 16))) [
        | inl q ↦ absurd (cc (rw (n, q) at e))
        | inr (addr, q) ↦
            let (reply, m, r) = request_to-Moves addr s s' (rw (n, q) at e) in
            record {
              port = port;
              addr_port = addr;
              reply = reply;
              port_of = a;
              in_range = n;
              encoded = q;
              moved = m;
              is_reply = r;
            }
      ]
    ]

-- What goes to the parent between the choice of the method and the request, and what comes back.
abbrev pub login : SocksParent → Bytes
login sp = if has_name sp then credentials sp else []

abbrev pub login_answer : SocksParent → Bytes
login_answer sp = if has_name sp then 1 ∷ 0 ∷ [] else []

-- A connection that was made: what was sent to the parent, and what was taken off its answers.
pub record IsConnected (t : IpText) (sp : SocksParent) (url : Url) (s s' : Session) : Type 0 where
  pub port : ℕ
  pub addr_port : Bytes
  pub reply : Bytes
  pub port_of : atoi url.port ≡ some port
  pub in_range : (signed_lt int64_half port 0 || signed_lt int64_half 65535 port) ≡ false
  pub encoded : build_socks5_addr_port t url.host (port % 2 ^ 16) ≡ some addr_port
  pub moved :
      Moves s s'
        (method_selection sp ++ (login sp ++ request_with 1 addr_port))
        ((5 ∷ (if has_name sp then 2 else 0) ∷ []) ++ (login_answer sp ++ reply))
  pub is_reply : IsReply reply

-- The answer to the choice of the method is the method that was offered.
method_answer :
    (sp : SocksParent) (rep : Bytes)
    → length rep ≡ 2
    → is_bad_method sp rep ≡ false
    → rep ≡ 5 ∷ (if has_name sp then 2 else 0) ∷ []
unfolding is_bad_method differs
method_answer sp rep l e = elim (Bool-cases (has_name sp)) [
  | inl y ↦
      let bad = rw y at e in
      let first : get_or rep 0 0 ≡ 5 = ground arith in
      let second : get_or rep 1 0 ≡ 2 = ground arith in
      rw y (two_bytes rep l ∙ ap₂ (λ x y. x ∷ y ∷ []) first second)
  | inr n ↦
      let bad = rw n at e in
      let first : get_or rep 0 0 ≡ 5 = ground arith in
      let second : get_or rep 1 0 ≡ 0 = ground arith in
      rw n (two_bytes rep l ∙ ap₂ (λ x y. x ∷ y ∷ []) first second)
]

module _ (t : IpText) (sp : SocksParent) (url : Url) where
  -- A login that is followed by the request.
  with_method-Moves :
      (rep : Bytes) (s s' : Session)
      → rep ≡ 5 ∷ (if has_name sp then 2 else 0) ∷ []
      → with_method t sp url rep s ≡ (ok tt, s')
      → (u : Session) × Moves s u (login sp) (login_answer sp) × Requested t url u s'
  unfolding with_method
  with_method-Moves rep s s' m e = elim (Bool-cases (has_name sp)) [
    | inl y ↦
        let second : (get_or rep 1 0 == 2) ≡ true =
          ap (λ k. get_or k 1 0 == 2) m ∙ ap (λ b. (if b then 2 else 0) == 2) y in
        let (x, u, f, g) = and_then-inv (authenticate sp s) _ tt s' (rw second at e) in
        rw y (u, authenticate-Moves sp s u f, request_at-Requested t url _ u s' refl g)
    | inr n ↦
        let second : (get_or rep 1 0 == 2) ≡ false =
          ap (λ k. get_or k 1 0 == 2) m ∙ ap (λ b. (if b then 2 else 0) == 2) n in
        rw n (
          s,
          record { wrote = sym (append-nil s.output); took = refl },
          request_at-Requested t url _ s s' refl (rw second at e),
        )
  ]

  on_method-IsConnected :
      (rep : Bytes) (s s1 s' : Session)
      → Moves s s1 (method_selection sp) rep
      → length rep ≡ 2
      → on_method t sp url rep s1 ≡ (ok tt, s')
      → IsConnected t sp url s s'
  unfolding on_method
  on_method-IsConnected rep s s1 s' m l e = elim (Bool-cases (is_bad_method sp rep)) [
    | inl y ↦ absurd (cc (rw y at e))
    | inr n ↦
        let answer = method_answer sp rep l n in
        let (u, logged, q) = with_method-Moves rep s1 s' answer (rw n at e) in
        record {
          port = q.port;
          addr_port = q.addr_port;
          reply = q.reply;
          port_of = q.port_of;
          in_range = q.in_range;
          encoded = q.encoded;
          moved =
              subst
                (λ k.
                  Moves s s' (method_selection sp ++ (login sp ++ request_with 1 (q.addr_port)))
                    (k ++ (login_answer sp ++ q.reply)))
                answer (and_Moves m (and_Moves logged (q.moved)));
          is_reply = q.is_reply;
        }
  ]

  -- A connection through a SOCKS5 parent is made only if the parent chose the one method that was
  -- offered (the name and the password if there is a name, none otherwise), accepted the login,
  -- and answered the request with a whole reply of status 0. Then exactly the choice, the login
  -- and one request for the URL's host and port were sent, and exactly the parent's answers were
  -- taken off: the first byte behind the reply is still to come.
  pub connect-IsConnected :
      (s s' : Session) → connect t sp url s ≡ (ok tt, s') → IsConnected t sp url s s'
  unfolding connect
  connect-IsConnected s s' e =
      let (x, u, f, g) = and_then-inv (write (method_selection sp) s) _ tt s' e in
      let (rep, v, h, i) = and_then-inv (read_full 2 u) _ tt s' g in
      let (m, l) = read_full-Moves 2 u v rep h in
      let first : Moves s v (method_selection sp) rep =
        subst (λ k. Moves s v k rep) (append-nil (method_selection sp))
          (and_Moves (write-Moves (method_selection sp) s u f) m) in
      on_method-IsConnected rep s v s' first l i
