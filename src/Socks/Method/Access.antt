-- ===== src/Socks/Method/Access.antt =====
-- socks.go: whom the negotiation of the method lets in.
use cow.Base.{
  ℕ, zero, suc, ◌≡◌, refl, sym, ap, ap₂, subst, ◌∙◌, ◌⊎◌, inl, inr, Bytes, ◌∷◌, ◌++◌, [], arith,
  Bool-cases, leb, some, none, Option, ◌==◌, Map, lookup, length, take, drop, take-append-drop,
  length-take, min, get_or, bytes_eq, eq_of_bytes_eq,
}
use mathlib.Core.List.{append_assoc}
use cow.Auth.{AuthUser, AuthState, auth_port, Verdict, granted, refused, AuthError}
use cow.Socks.Session.{
  Session, Outcome, ok, err, M, and_then, fail, read_full, write, read_of, write_left, auth_needed,
}
use cow.Socks.Method.{
  write_socks5_user_pass_status, reject, remember_client, check_port, check_user, with_user,
  read_user_pass, auth_socks_user_pass,
}

-- A sequence that ends well went well step by step.
pub and_then-inv :
    {A B : Type 0} (r : Outcome A × Session) (f : A → M B) (b : B) (s' : Session)
    → and_then r f ≡ (ok b, s')
    → (a : A) × (t : Session) × (r ≡ (ok a, t)) × (f a t ≡ (ok b, s'))
and_then-inv (ok a, s) f b s' e = (a, s, refl, e)
and_then-inv (err x, s) f b s' e = absurd (cc e)

read_of-inv :
    (n : ℕ) (input : Bytes) (s t : Session) (b : Bytes)
    → read_of n input s ≡ (ok b, t)
    → (input ≡ b ++ t.input) × (length b ≡ n) × (t.auth ≡ s.auth)
unfolding read_of
read_of-inv n input s t b e = elim (Bool-cases (leb n (length input))) [
  | inr k ↦ absurd (cc (rw k at e))
  | inl y ↦
      let fits : min n (length input) ≡ n = ground arith in
      let got : take n input ≡ b = cc (rw y at e) in
      let left : ◌≡◌ {A = Session} (record s { input = drop n input }) t =
        ap (λ p. p.1) (rw y at e) in
      (
        sym (take-append-drop n input)
            ∙ ap₂ (λ x y. x ++ y) got (ap (λ (u : Session). u.input) left),
        ap length (sym got) ∙ length-take n input ∙ fits,
        sym (ap (λ (u : Session). u.auth) left),
      )
]

pub read_full-inv :
    (n : ℕ) (s t : Session) (b : Bytes)
    → read_full n s ≡ (ok b, t)
    → (s.input ≡ b ++ t.input) × (length b ≡ n) × (t.auth ≡ s.auth)
unfolding read_full
read_full-inv n s t b e = read_of-inv n s.input s t b e

reject-ne : (s t : Session) → reject s ≡ (ok tt, t) → ⊥
unfolding reject
reject-ne s t e =
    let (a, u, f, g) =
      and_then-inv (write_socks5_user_pass_status 1 s) (λ u. fail auth_needed) tt t e in
    absurd (cc g)

write_left-inv :
    (k : ℕ) (b : Bytes) (s t : Session) → write_left k b s ≡ (ok tt, t) → t.input ≡ s.input
unfolding write_left
write_left-inv zero b s t e = absurd (cc e)
write_left-inv (suc k) b s t e = sym (ap (λ (p : Outcome (Unit {0}) × Session). p.1.input) e)

write_status-inv :
    (status : ℕ) (s t : Session)
    → write_socks5_user_pass_status status s ≡ (ok tt, t)
    → t.input ≡ s.input
unfolding write_socks5_user_pass_status write
write_status-inv status s t e = write_left-inv s.writes _ s t e

remember-inv :
    (now : ℕ) (client_ip : Bytes) (s t : Session)
    → remember_client now client_ip s ≡ (ok tt, t)
    → t.input ≡ s.input
unfolding remember_client
remember-inv now client_ip s t e = elim (Bool-cases (bytes_eq client_ip [])) [
  | inl y ↦ sym (ap (λ (p : Outcome (Unit {0}) × Session). p.1.input) (rw y at e))
  | inr n ↦ sym (ap (λ (p : Outcome (Unit {0}) × Session). p.1.input) (rw n at e))
]

-- The first two bytes.
pub two_bytes : (b : Bytes) → length b ≡ 2 → b ≡ get_or b 0 0 ∷ get_or b 1 0 ∷ []
two_bytes [] e = absurd (omega arith)
two_bytes (x ∷ []) e = absurd (omega arith)
two_bytes (x ∷ y ∷ []) e = refl
two_bytes (x ∷ y ∷ z ∷ b) e = absurd (omega arith)

one_byte : (b : Bytes) → length b ≡ 1 → b ≡ get_or b 0 0 ∷ []
one_byte [] e = absurd (omega arith)
one_byte (x ∷ []) e = refl
one_byte (x ∷ y ∷ b) e = absurd (omega arith)

-- What a client sent for its name and password.
abbrev pub sent_credentials : Bytes → Bytes → Bytes
sent_credentials user passwd = 1 ∷ length user ∷ (user ++ length passwd ∷ passwd)

-- A user with that password, who may use the port.
pub record MayEnter (users : Map AuthUser) (local_port : ℕ) (user passwd : Bytes) : Type 0 where
  pub au : AuthUser
  pub found : lookup user users ≡ some au
  pub right : au.passwd ≡ passwd
  pub port_ok : auth_port local_port au ≡ granted

Verdict-cases : (v : Verdict) → (v ≡ granted) ⊎ ((e : AuthError) × (v ≡ refused e))
Verdict-cases granted = inl refl
Verdict-cases (refused e) = inr (e, refl)

check_port-inv :
    (now local_port : ℕ) (client_ip : Bytes) (au : AuthUser) (s t : Session)
    → check_port now local_port client_ip au s ≡ (ok tt, t)
    → (auth_port local_port au ≡ granted) × (t.input ≡ s.input)
unfolding check_port
check_port-inv now local_port client_ip au s t e = elim (Verdict-cases (auth_port local_port au)) [
  | inr (x, v) ↦ absurd (reject-ne s t (rw (v, check_port) at e))
  | inl v ↦
      let (a, u, f, g) =
        and_then-inv (write_socks5_user_pass_status 0 s) (λ u. remember_client now client_ip) tt t
          (rw (v, check_port) at e) in
      (v, remember-inv now client_ip u t g ∙ write_status-inv 0 s u f)
]

check_user-inv :
    (now local_port : ℕ) (client_ip user passwd : Bytes) (o : Option AuthUser)
    (users : Map AuthUser) (s t : Session)
    → lookup user users ≡ o
    → check_user now local_port client_ip passwd o s ≡ (ok tt, t)
    → MayEnter users local_port user passwd × (t.input ≡ s.input)
unfolding check_user
check_user-inv now local_port client_ip user passwd none users s t l e = absurd (reject-ne s t e)
check_user-inv now local_port client_ip user passwd (some au) users s t l e =
    elim (Bool-cases (bytes_eq au.passwd passwd)) [
      | inr n ↦ absurd (reject-ne s t (rw n at e))
      | inl y ↦
          let (p, i) = check_port-inv now local_port client_ip au s t (rw y at e) in
          (record { au = au; found = l; right = eq_of_bytes_eq au.passwd passwd y; port_ok = p }, i)
    ]

assemble :
    (h user p passwd i0 i1 i2 i3 i4 r : Bytes)
    → i0 ≡ h ++ i1
    → i1 ≡ user ++ i2
    → i2 ≡ p ++ i3
    → i3 ≡ passwd ++ i4
    → r ≡ i4
    → h ≡ 1 ∷ length user ∷ []
    → p ≡ length passwd ∷ []
    → i0 ≡ sent_credentials user passwd ++ r
assemble h user p passwd i0 i1 i2 i3 i4 r e0 e1 e2 e3 er eh ep =
    e0
    ∙ ap₂ (λ x y. x ++ y) eh
        (e1
          ∙ ap (λ x. user ++ x) (e2 ∙ ap₂ (λ x y. x ++ y) ep (e3 ∙ ap (λ x. passwd ++ x) (sym er))))
    ∙ ap (λ x. 1 ∷ length user ∷ x) (sym (append_assoc user (length passwd ∷ passwd) r))

-- A greeting of the right version was read; the rest is the name and the password.
module _ (now local_port : ℕ) (client_ip : Bytes) where
  read_user_pass-inv :
      (header : Bytes) (s s1 t : Session)
      → s.input ≡ header ++ s1.input
      → length header ≡ 2
      → s1.auth ≡ s.auth
      → get_or header 0 0 ≡ 1
      → read_user_pass now local_port client_ip header s1 ≡ (ok tt, t)
      → (user : Bytes) × (passwd : Bytes) × (s.input ≡ sent_credentials user passwd ++ t.input)
        × MayEnter s.auth.user local_port user passwd
  unfolding read_user_pass with_user
  read_user_pass-inv header s s1 t i0 l0 a0 v e =
      let (user, s2, f1, g1) = and_then-inv (read_full (get_or header 1 0) s1) _ tt t e in
      let (plen, s3, f2, g2) = and_then-inv (read_full 1 s2) _ tt t g1 in
      let (passwd, s4, f3, g3) = and_then-inv (read_full (get_or plen 0 0) s3) _ tt t g2 in
      let (i1, l1, a1) = read_full-inv _ s1 s2 user f1 in
      let (i2, l2, a2) = read_full-inv 1 s2 s3 plen f2 in
      let (i3, l3, a3) = read_full-inv _ s3 s4 passwd f3 in
      let (m, i4) =
        check_user-inv now local_port client_ip user passwd _ s4.auth.user s4 t refl g3 in
      let same : s4.auth ≡ s.auth = a3 ∙ a2 ∙ a1 ∙ a0 in
      (
        user,
        passwd,
        assemble header user plen passwd _ _ _ _ _ _ i0 i1 i2 i3 i4
            (two_bytes header l0 ∙ ap₂ (λ x y. x ∷ y ∷ []) v (sym l1))
            (one_byte plen l2 ∙ ap (λ x. x ∷ []) (sym l3)),
        subst (λ (a : AuthState). MayEnter a.user local_port user passwd) same m,
      )

  -- `authSocksUserPass` succeeds only if the client sent, as its next bytes, the name of a user of
  -- the table with that user's password, and the user may use the port; nothing further is read.
  pub auth_user_pass-MayEnter :
      (s t : Session)
      → auth_socks_user_pass now local_port client_ip s ≡ (ok tt, t)
      → (user : Bytes) × (passwd : Bytes) × (s.input ≡ sent_credentials user passwd ++ t.input)
        × MayEnter s.auth.user local_port user passwd
  unfolding auth_socks_user_pass
  auth_user_pass-MayEnter s t e =
      let (header, s1, f, g) = and_then-inv (read_full 2 s) _ tt t e in
      let (i, l, a) = read_full-inv 2 s s1 header f in
      elim (Bool-cases (get_or header 0 0 == 1)) [
        | inr n ↦ absurd (reject-ne s1 t (rw n at g))
        | inl y ↦ read_user_pass-inv header s s1 t i l a (ground arith) (rw y at g)
      ]
