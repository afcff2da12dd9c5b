-- ===== src/Config/RoundTrip.antt =====
-- config.go and parent_proxy.go: a SOCKS5 parent is read back from what is printed of it.
use cow.Base.{
  ℕ, ◌+◌, ◌≤◌, ◌≡◌, refl, sym, ap, ap₂, subst, ◌∙◌, inl, inr, true, false, none, some, [], ◌∷◌,
  ◌++◌, arith, ltb, ◌==◌, ==_refl, Bool-cases, Option-cases, length, drop, length-append,
  take-append, drop-append, drop_at, Bytes, codes, bytes_eq, index_byte, last_index, has_prefix,
}
use mathlib.Core.List.{append_assoc}
use cow.Std.Net.{IpText}
use cow.Std.Strings.{split_2}
use cow.Parent.SocksParent.{SocksParent, new_socks_parent_auth}
use cow.Config.{
  parsed, check_server_addr, normalize_server_addr, with_server, with_credentials,
  parse_credentials, parse_socks_parent, gen_config_value, trim_prefix,
}

last_index-at :
    (c : ℕ) (s t : Bytes) → last_index c t ≡ none → last_index c (s ++ c ∷ t) ≡ some (length s)
unfolding last_index
last_index-at c [] t e = rw (e, last_index) (rw (==_refl c) refl)
last_index-at c (x ∷ s) t e = rw (last_index-at c s t e, last_index) refl

index_byte-at :
    (c : ℕ) (s t : Bytes) → index_byte c s ≡ none → index_byte c (s ++ c ∷ t) ≡ some (length s)
unfolding index_byte
index_byte-at c [] t e = rw (==_refl c, index_byte) refl
index_byte-at c (x ∷ s) t e = elim (Bool-cases (x == c)) [
  | inl f ↦ absurd (cc (rw (f, index_byte) at e))
  | inr f ↦ elim (Option-cases (index_byte c s)) [
    | inr (i, g) ↦ absurd (cc (rw (f, g, index_byte) at e))
    | inl g ↦ rw (f, index_byte-at c s t g, index_byte) refl
  ]
]

behind : (c : ℕ) (s t : Bytes) → drop (length s + 1) (s ++ c ∷ t) ≡ t
behind c s t =
    drop_at (length s + 1) (s ++ c ∷ t) (s ++ c ∷ []) t (sym (append_assoc s (c ∷ []) t))
      (length-append s (c ∷ []))

split_2-at : (c : ℕ) (s t : Bytes) → index_byte c s ≡ none → split_2 c (s ++ c ∷ t) ≡ s ∷ t ∷ []
unfolding split_2
split_2-at c s t e =
    rw (index_byte-at c s t e, split_2)
      (ap₂ (λ k l. k ∷ l ∷ []) (take-append s (c ∷ t)) (behind c s t))

-- A parent whose text can be read back: the server has a port and no `@`; with a name, both the
-- name and the password are set and have at most 255 bytes, and the name has no colon. What
-- follows `socks5://` must not start with the older spelling of it.
pub data IsPrintable (sp : SocksParent) : Type 0 where
  with_login :
      (bytes_eq sp.username [] ≡ false)
      → (bytes_eq sp.password [] ≡ false)
      → (length sp.username ≤ 255)
      → (length sp.password ≤ 255)
      → (index_byte b':' sp.username ≡ none)
      → (has_prefix (codes "sock5://") (sp.username ++ b':' ∷ (sp.password ++ b'@' ∷ sp.server))
          ≡ false)
      → IsPrintable sp
  without_login :
      (sp.username ≡ [])
      → (sp.password ≡ [])
      → (has_prefix (codes "sock5://") sp.server ≡ false)
      → IsPrintable sp

has_prefix-append : (p s : Bytes) → has_prefix p (p ++ s) ≡ true
unfolding has_prefix
has_prefix-append [] s = refl
has_prefix-append (x ∷ p) s = rw (==_refl x) (has_prefix-append p s)

trim_prefix-append : (p s : Bytes) → trim_prefix p (p ++ s) ≡ s
unfolding trim_prefix
trim_prefix-append p s = rw (has_prefix-append p s) (drop-append p s)

trim_prefix-other : (p s : Bytes) → has_prefix p s ≡ false → trim_prefix p s ≡ s
unfolding trim_prefix
trim_prefix-other p s e = rw e refl

-- The text behind `socks5://`.
parse_behind :
    (t : IpText) (s : Bytes)
    → has_prefix (codes "sock5://") s ≡ false
    → parse_socks_parent t (codes "socks5://" ++ s) ≡ parse_credentials t s (last_index b'@' s)
unfolding parse_socks_parent
parse_behind t s e =
    ap (λ v. parse_credentials t v (last_index b'@' v))
      (ap (trim_prefix (codes "sock5://")) (trim_prefix-append (codes "socks5://") s)
        ∙ trim_prefix-other (codes "sock5://") s e)

normalize-checked :
    (t : IpText) (server : Bytes)
    → check_server_addr server ≡ true
    → normalize_server_addr t server ≡ parsed server
unfolding normalize_server_addr
normalize-checked t server e = rw e refl

parse_login :
    (t : IpText) (user passwd server : Bytes)
    → last_index b'@' server ≡ none
    → index_byte b':' user ≡ none
    → (let val = user ++ b':' ∷ (passwd ++ b'@' ∷ server) in
        parse_credentials t val (last_index b'@' val))
      ≡ with_credentials t server (user ∷ passwd ∷ [])
unfolding parse_credentials
parse_login t user passwd server a c =
    let head : Bytes = user ++ b':' ∷ passwd in
    let val : Bytes = user ++ b':' ∷ (passwd ++ b'@' ∷ server) in
    let same : head ++ b'@' ∷ server ≡ val = append_assoc user (b':' ∷ passwd) (b'@' ∷ server) in
    subst
      (λ v.
        parse_credentials t v (last_index b'@' v) ≡ with_credentials t server (user ∷ passwd ∷ []))
      same
      (rw
        (
          last_index-at b'@' head server a,
          behind b'@' head server,
          take-append head (b'@' ∷ server),
          split_2-at b':' user passwd c,
        )
        refl)

module _ (t : IpText) (user passwd server : Bytes) (ok : check_server_addr server ≡ true) where
  credentials-parsed :
      bytes_eq user [] ≡ false
      → bytes_eq passwd [] ≡ false
      → length user ≤ 255
      → length passwd ≤ 255
      → with_credentials t server (user ∷ passwd ∷ [])
        ≡ parsed (new_socks_parent_auth server user passwd)
  unfolding with_credentials with_server
  credentials-parsed u p l m =
      let first : ltb 255 (length user) ≡ false = ground arith in
      let second : ltb 255 (length passwd) ≡ false = ground arith in
      rw (u, p, first, second, normalize-checked t server ok) refl

  plain-parsed :
      last_index b'@' server ≡ none
      → parse_credentials t server (last_index b'@' server)
        ≡ parsed (new_socks_parent_auth server [] [])
  unfolding parse_credentials with_server
  plain-parsed a = rw (a, normalize-checked t server ok) refl

  gen_config-login :
      bytes_eq user [] ≡ false
      → gen_config_value (new_socks_parent_auth server user passwd)
        ≡ codes "socks5://" ++ (user ++ b':' ∷ (passwd ++ b'@' ∷ server))
  unfolding gen_config_value new_socks_parent_auth
  gen_config-login u = rw u refl

-- The option that is printed for a SOCKS5 parent is read back as that parent, if the server has a
-- port and no `@`, and the parent either has no login, or a name and a password that are not
-- empty, have at most 255 bytes each and no colon in the name; in either case the text behind
-- `socks5://` must not start with `sock5://`.
pub parse-gen_config :
    (t : IpText) (sp : SocksParent)
    → check_server_addr sp.server ≡ true
    → last_index b'@' sp.server ≡ none
    → IsPrintable sp
    → parse_socks_parent t (gen_config_value sp) ≡ parsed sp
unfolding new_socks_parent_auth gen_config_value bytes_eq
parse-gen_config t sp ok at (with_login u p l m c f) =
    ap (parse_socks_parent t) (gen_config-login t sp.username sp.password sp.server ok u)
    ∙ parse_behind t (sp.username ++ b':' ∷ (sp.password ++ b'@' ∷ sp.server)) f
    ∙ parse_login t sp.username sp.password sp.server at c
    ∙ credentials-parsed t sp.username sp.password sp.server ok u p l m
parse-gen_config t sp ok at (without_login u p f) =
    ap (λ (k : SocksParent). parse_socks_parent t (gen_config_value k)) plain
    ∙ parse_behind t sp.server f
    ∙ plain-parsed t sp.username sp.password sp.server ok at
    ∙ ap parsed (sym plain)
  where
    plain : sp ≡ new_socks_parent_auth sp.server [] []
    plain = ap₂ (λ i j. new_socks_parent_auth sp.server i j) u p
