-- ===== src/Proxy/Connect/Routed.antt =====
-- proxy.go: which connections `connectServer` may hand out.
use cow.Base.{
  ℕ, ◌≡◌, refl, sym, ap, subst, ◌∙◌, ◌≢◌, ◌⊎◌, inl, inr, Bool, true, false, not, ◌&&◌, Option, some,
  arith, Bool-cases, Option-cases, &&-eq-true, eq_of_some,
}
use cow.Url.{Url}
use cow.Site.Visit.{VisitCnt, always_direct, always_blocked, as_blocked, as_temp_blocked}
use cow.Site.Stat.{SiteStat, temp_blocked_site}
use cow.Proxy.Connect.{
  ConnectConfig, Reason, Dialled, dialled, dial_error, ServerNet, direct_conn, parent_conn,
  Connected, connected, connect_error, page_sent, connect_direct, direct_again, direct_result,
  fail_page, only_parent, last_direct, without_parent, blocked_site, parent_instead, direct_site,
  connect_server,
}

-- A direct connection needs that the parents are not forced, and that there are none or the site
-- is neither always blocked nor blocked for a while. A parent's connection needs that the parents
-- are forced, or that there are some and the site is taken to be blocked or not always direct.
pub data IsRouted {Conn : Type 0} (c : ConnectConfig) (now draw : ℕ) (vc : VisitCnt)
    : ServerNet Conn → Type 0 where
  direct :
      (s : Conn)
      → c.always_proxy ≡ false
      → (c.no_parent ≡ true) ⊎ ((always_blocked vc ≡ false) × (as_temp_blocked now vc ≡ false))
      → IsRouted c now draw vc (direct_conn s)
  forced_parent : (s : Conn) → c.always_proxy ≡ true → IsRouted c now draw vc (parent_conn s)
  parent :
      (s : Conn)
      → c.no_parent ≡ false
      → (as_blocked now draw vc ≡ true) ⊎ (always_direct vc ≡ false)
      → IsRouted c now draw vc (parent_conn s)

false_of_not : (b : Bool) → not b ≡ true → b ≡ false
false_of_not true e = sym e
false_of_not false e = refl

pub outcome_eq :
    {Conn Err : Type 0} {a b : Connected Conn Err} {ss ss' : SiteStat}
    → ◌≡◌ {A = Connected Conn Err × SiteStat} (a, ss) (b, ss')
    → a ≡ b
outcome_eq e = ap (λ q. q.0) e

not_blocked :
    (now draw : ℕ) (vc : VisitCnt)
    → as_blocked now draw vc ≡ false
    → (always_blocked vc ≡ false) × (as_temp_blocked now vc ≡ false)
unfolding as_blocked always_blocked as_temp_blocked
not_blocked now draw vc e = ground arith

module _ {Conn Err : Type 0} (too_many_open_fd : Err → Bool)
    (dial : Bool → Option ℕ → Dialled Conn Err) (parent_dial : Dialled Conn Err) (c : ConnectConfig)
    (send_error : Bool) where
  again-direct :
      (r : Dialled Conn Err) (s : ServerNet Conn)
      → direct_again r ≡ connected s
      → (n : Conn) × (s ≡ direct_conn n)
  unfolding direct_again
  again-direct (dialled n) s e = (n, sym (cc e))
  again-direct (dial_error x) s e = absurd (cc e)

  result-direct :
      (first again : Dialled Conn Err) (s : ServerNet Conn)
      → direct_result too_many_open_fd first again ≡ connected s
      → (n : Conn) × (s ≡ direct_conn n)
  unfolding direct_result
  result-direct (dialled n) again s e = (n, sym (cc e))
  result-direct (dial_error x) again s e = elim (Bool-cases (too_many_open_fd x)) [
    | inl y ↦ again-direct again s (rw y at e)
    | inr n ↦ absurd (cc (rw n at e))
  ]

  pub fail_page-ne :
      (reason : Reason) (x : Err) (s : ServerNet Conn) → fail_page send_error reason x ≢ connected s
  unfolding fail_page
  fail_page-ne reason x s e = elim (Bool-cases send_error) [
    | inl y ↦ absurd (cc (rw y at e))
    | inr n ↦ absurd (cc (rw n at e))
  ]

  last-direct :
      (r : Connected Conn Err) (s : ServerNet Conn)
      → last_direct too_many_open_fd dial parent_dial c send_error r ≡ connected s
      → r ≡ connected s
  unfolding last_direct
  last-direct (connected t) s e = e
  last-direct (connect_error x) s e = absurd (fail_page-ne _ x s e)
  last-direct (page_sent r x) s e = e

  -- No attempt at a direct connection gives a parent's.
  pub connect_direct-direct :
      (now : ℕ) (vc : VisitCnt) (s : ServerNet Conn)
      → connect_direct too_many_open_fd dial c now vc ≡ connected s
      → (n : Conn) × (s ≡ direct_conn n)
  unfolding connect_direct
  connect_direct-direct now vc s e = result-direct _ _ s e

  only_parent-IsRouted :
      (now draw : ℕ) (vc : VisitCnt) (r : Dialled Conn Err) (s : ServerNet Conn)
      → c.always_proxy ≡ true
      → only_parent too_many_open_fd dial parent_dial c send_error r ≡ connected s
      → IsRouted c now draw vc s
  unfolding only_parent
  only_parent-IsRouted now draw vc (dialled n) s a e =
      subst (IsRouted c now draw vc) (cc e) (forced_parent n a)
  only_parent-IsRouted now draw vc (dial_error x) s a e = absurd (fail_page-ne _ x s e)

  without_parent-direct :
      (now : ℕ) (vc : VisitCnt) (x : Err) (r : Connected Conn Err) (s : ServerNet Conn)
      → without_parent too_many_open_fd dial parent_dial c send_error now vc x r ≡ connected s
      → (always_blocked vc ≡ false) × (as_temp_blocked now vc ≡ false) × (r ≡ connected s)
  unfolding without_parent
  without_parent-direct now vc x r s e = elim (Bool-cases (always_blocked vc)) [
    | inl y ↦ absurd (fail_page-ne _ x s (rw y at e))
    | inr n ↦ elim (Bool-cases (as_temp_blocked now vc)) [
      | inl y ↦ absurd (fail_page-ne _ x s (rw (n, y) at e))
      | inr m ↦ (n, m, last-direct r s (rw (n, m) at e))
    ]
  ]

  blocked_site-IsRouted :
      (now draw : ℕ) (vc : VisitCnt) (r : Dialled Conn Err) (s : ServerNet Conn)
      → c.always_proxy ≡ false
      → c.no_parent ≡ false
      → as_blocked now draw vc ≡ true
      → blocked_site too_many_open_fd dial parent_dial c send_error now vc r ≡ connected s
      → IsRouted c now draw vc s
  unfolding blocked_site
  blocked_site-IsRouted now draw vc (dialled n) s a p b e =
      subst (IsRouted c now draw vc) (cc e) (parent n p (inl b))
  blocked_site-IsRouted now draw vc (dial_error x) s a p b e =
      let (n, m, f) = without_parent-direct now vc x _ s e in
      let (k, g) = connect_direct-direct now vc s f in
      subst (IsRouted c now draw vc) (sym g) (direct k a (inr (n, m)))

  may_go_direct :
      (now draw : ℕ) (vc : VisitCnt)
      → (as_blocked now draw vc && not c.no_parent) ≡ false
      → (c.no_parent ≡ true) ⊎ ((always_blocked vc ≡ false) × (as_temp_blocked now vc ≡ false))
  may_go_direct now draw vc b = elim (Bool-cases c.no_parent) [
    | inl y ↦ inl y
    | inr n ↦ elim (Bool-cases (as_blocked now draw vc)) [
      | inl y ↦ absurd (cc (rw (n, y) at b))
      | inr m ↦ inr (not_blocked now draw vc m)
    ]
  ]

  parent_instead-IsRouted :
      (now draw : ℕ) (ss ss' : SiteStat) (url : Url) (vc : VisitCnt) (x : Err)
      (r : Dialled Conn Err) (s : ServerNet Conn)
      → c.no_parent ≡ false
      → always_direct vc ≡ false
      → parent_instead too_many_open_fd dial parent_dial c send_error now ss url x r
        ≡ some (connected s, ss')
      → IsRouted c now draw vc s
  unfolding parent_instead
  parent_instead-IsRouted now draw ss ss' url vc x (dial_error y) s p a e =
      absurd (fail_page-ne _ x s (outcome_eq (eq_of_some e)))
  parent_instead-IsRouted now draw ss ss' url vc x (dialled n) s p a e =
      elim (Option-cases (temp_blocked_site now ss url)) [
        | inl f ↦ absurd (cc (rw f at e))
        | inr (t, f) ↦ subst (IsRouted c now draw vc) (cc (rw f at e)) (parent n p (inr a))
      ]

  direct_site-IsRouted :
      (now draw : ℕ) (ss ss' : SiteStat) (url : Url) (vc : VisitCnt) (s : ServerNet Conn)
      → c.always_proxy ≡ false
      → (as_blocked now draw vc && not c.no_parent) ≡ false
      → (r : Connected Conn Err)
      → ((t : ServerNet Conn) → r ≡ connected t → (n : Conn) × (t ≡ direct_conn n))
      → direct_site too_many_open_fd dial parent_dial c send_error now ss url vc r
        ≡ some (connected s, ss')
      → IsRouted c now draw vc s
  unfolding direct_site parent_instead
  direct_site-IsRouted now draw ss ss' url vc s a b (connected t) d e =
      let (k, f) = d t refl in
      let same : t ≡ s = cc e in
      subst (IsRouted c now draw vc) (sym f ∙ same) (direct k a (may_go_direct now draw vc b))
  direct_site-IsRouted now draw ss ss' url vc s a b (page_sent r x) d e = absurd (cc e)
  direct_site-IsRouted now draw ss ss' url vc s a b (connect_error x) d e =
      elim (Bool-cases c.no_parent) [
        | inl y ↦ absurd (fail_page-ne _ x s (outcome_eq (eq_of_some (rw y at e))))
        | inr n ↦ elim (Bool-cases (always_direct vc)) [
          | inl y ↦ absurd (fail_page-ne _ x s (outcome_eq (eq_of_some (rw (n, y) at e))))
          | inr m ↦
              parent_instead-IsRouted now draw ss ss' url vc x parent_dial s n m (rw (n, m) at e)
        ]
      ]

  -- Whatever the attempts give, the connection that `connectServer` hands out keeps to the policy:
  -- a direct one only if the parents are not forced and, where there are parents, the site is
  -- neither always blocked nor blocked for a while; a parent's only if the parents are forced, or
  -- there are some and the site is taken to be blocked or is not always direct.
  pub connect_server-IsRouted :
      (now draw : ℕ) (ss ss' : SiteStat) (url : Url) (vc : VisitCnt) (s : ServerNet Conn)
      → connect_server too_many_open_fd dial parent_dial c send_error now draw ss url vc
        ≡ some (connected s, ss')
      → IsRouted c now draw vc s
  unfolding connect_server
  connect_server-IsRouted now draw ss ss' url vc s e = elim (Bool-cases c.always_proxy) [
    | inl y ↦ only_parent-IsRouted now draw vc parent_dial s y (outcome_eq (eq_of_some (rw y at e)))
    | inr a ↦ elim (Bool-cases (as_blocked now draw vc && not c.no_parent)) [
      | inl y ↦
          blocked_site-IsRouted now draw vc parent_dial s a
            (false_of_not c.no_parent (&&-eq-true _ _ y).1) (&&-eq-true _ _ y).0
            (outcome_eq (eq_of_some (rw (a, y) at e)))
      | inr n ↦
          direct_site-IsRouted now draw ss ss' url vc s a n _ (λ t. connect_direct-direct now vc t)
            (rw (a, n) at e)
    ]
  ]
