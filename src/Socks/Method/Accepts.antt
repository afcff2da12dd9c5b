-- ===== src/Socks/Method/Accepts.antt =====
-- socks.go: a user who may enter is let in.
use cow.Base.{
  ℕ, zero, suc, ◌<◌, ◌≡◌, refl, sym, ap, ◌∙◌, inl, inr, true, [], ◌∷◌, ◌++◌, arith, Bool-cases,
  length, Bytes, bytes_eq, bytes_eq_refl,
}
use mathlib.Core.List.{append_assoc}
use cow.Auth.{AuthUser, auth_port, granted}
use cow.Socks.Session.{Session, ok, write, write_left, read_full-append}
use cow.Socks.Method.{
  auth_socks_user_pass, read_user_pass, with_user, check_user, check_port,
  write_socks5_user_pass_status, remember_client,
}
use cow.Socks.Method.Access.{MayEnter, sent_credentials}

write_left-fits :
    (k : ℕ) (b : Bytes) (s : Session)
    → 0 < k
    → (t : Session) × (write_left k b s ≡ (ok tt, t)) × (t.input ≡ s.input)
unfolding write_left
write_left-fits zero b s h = absurd (omega arith)
write_left-fits (suc k) b s h = (record s { output = s.output ++ b; writes = k }, refl, refl)

remember_client-ok :
    (now : ℕ) (client_ip : Bytes) (s : Session)
    → (t : Session) × (remember_client now client_ip s ≡ (ok tt, t)) × (t.input ≡ s.input)
unfolding remember_client
remember_client-ok now client_ip s = elim (Bool-cases (bytes_eq client_ip [])) [
  | inl y ↦ (s, rw y refl, refl)
  | inr n ↦ ((remember_client now client_ip s).1, rw n refl, rw n refl)
]

check_port-accepts :
    (now local_port : ℕ) (client_ip : Bytes) (au : AuthUser) (s : Session)
    → auth_port local_port au ≡ granted
    → 0 < s.writes
    → (t : Session) × (check_port now local_port client_ip au s ≡ (ok tt, t)) × (t.input ≡ s.input)
unfolding check_port write_socks5_user_pass_status write
check_port-accepts now local_port client_ip au s g w =
    let (u, e, i) = write_left-fits s.writes (1 ∷ 0 ∷ []) s w in
    let (t, f, j) = remember_client-ok now client_ip u in (t, rw (g, check_port) (rw e f), j ∙ i)

with_user-accepts :
    (now local_port : ℕ) (client_ip user passwd : Bytes) (s : Session)
    → MayEnter s.auth.user local_port user passwd
    → 0 < s.writes
    → (t : Session) × (with_user now local_port client_ip user passwd s ≡ (ok tt, t))
      × (t.input ≡ s.input)
unfolding with_user check_user
with_user-accepts now local_port client_ip user passwd s may w =
    let (t, e, i) = check_port-accepts now local_port client_ip (may.au) s (may.port_ok) w in
    let same : bytes_eq (may.au.passwd) passwd ≡ true =
      ap (bytes_eq (may.au.passwd)) (sym (may.right)) ∙ bytes_eq_refl (may.au.passwd) in
    (t, ap (λ o. check_user now local_port client_ip passwd o s) (may.found) ∙ rw same e, i)

module _ (now local_port : ℕ) (client_ip : Bytes) where
  -- `authSocksUserPass` lets a user of the table in whose name and password are the client's next
  -- bytes and who may use the port, and leaves the reader behind them, as long as the answer can
  -- be written.
  pub auth_user_pass-accepts :
      (user passwd rest : Bytes) (v : Session)
      → v.input ≡ sent_credentials user passwd ++ rest
      → MayEnter v.auth.user local_port user passwd
      → 0 < v.writes
      → (t : Session) × (auth_socks_user_pass now local_port client_ip v ≡ (ok tt, t))
        × (t.input ≡ rest)
  unfolding auth_socks_user_pass read_user_pass
  auth_user_pass-accepts user passwd rest v i may w =
      let tail = length passwd ∷ (passwd ++ rest) in
      let (t, e, j) =
        with_user-accepts now local_port client_ip user passwd (record v { input = rest }) may w in
      (
        t,
        rw
            (
              read_full-append 2 v (1 ∷ length user ∷ []) (user ++ tail)
                  (i
                    ∙ ap (λ k. 1 ∷ length user ∷ k)
                        (append_assoc user (length passwd ∷ passwd) rest))
                  refl,
              read_full-append (length user) (record v { input = user ++ tail }) user tail refl
                  refl,
              read_full-append 1 (record v { input = tail }) (length passwd ∷ []) (passwd ++ rest)
                  refl refl,
              read_full-append (length passwd) (record v { input = passwd ++ rest }) passwd rest
                  refl refl,
            )
            e,
        j,
      )
