-- ===== src/Proxy/Connect/Learned.antt =====
-- proxy.go: what `connectServer` does to the table of sites.
use cow.Base.{
  ℕ, ◌≡◌, refl, ap, ◌∙◌, ◌≢◌, ◌⊎◌, inl, inr, Bool, true, false, not, ◌&&◌, Option, none, some,
  arith, Bool-cases, Option-cases, eq_of_some, All, bytes_eq, lookup,
}
use cow.Url.{Url}
use cow.Util.Host.{host2domain}
use cow.Site.Visit.{VisitCnt, always_direct, as_blocked, as_temp_blocked, user_specified}
use cow.Site.Stat.{SiteStat, Ref, temp_blocked_site, get, get_visit_cnt, get_direct_list}
use cow.Site.Stat.Entry.{deref}
use cow.Site.Stat.Direct.{temp_blocked-direct_list}
use cow.Proxy.Connect.{
  ConnectConfig, Reason, Dialled, dialled, dial_error, ServerNet, direct_conn, parent_conn,
  Connected, connected, connect_error, page_sent, fail_page, parent_instead, direct_site,
  connect_server,
}
use cow.Site.Stat.Entry.{served_known}
use cow.Proxy.Connect.Routed.{outcome_eq, fail_page-ne, connect_direct-direct}

temp_blocked-known :
    (now : ℕ) (ss : SiteStat) (url : Url) (vc : VisitCnt)
    → lookup url.host ss.vcnt ≡ some vc
    → temp_blocked_site now ss url ≢ none
unfolding temp_blocked_site get
temp_blocked-known now ss url vc e f = absurd (cc (rw (e, temp_blocked_site) at f))

-- A count set by the user is always direct where it is not taken to be blocked.
user-always_direct :
    (now draw : ℕ) (vc : VisitCnt)
    → user_specified vc ≡ true
    → as_blocked now draw vc ≡ false
    → always_direct vc ≡ true
unfolding user_specified as_blocked always_direct as_temp_blocked
user-always_direct now draw vc u e = ground arith

module _ {Conn Err : Type 0} (too_many_open_fd : Err → Bool)
    (dial : Bool → Option ℕ → Dialled Conn Err) (parent_dial : Dialled Conn Err) (c : ConnectConfig)
    (send_error : Bool) where
  parent_instead-returns :
      (now : ℕ) (ss : SiteStat) (url : Url) (vc : VisitCnt) (x : Err) (r : Dialled Conn Err)
      → lookup url.host ss.vcnt ≡ some vc
      → parent_instead too_many_open_fd dial parent_dial c send_error now ss url x r ≢ none
  unfolding parent_instead
  parent_instead-returns now ss url vc x (dial_error y) e f = absurd (cc f)
  parent_instead-returns now ss url vc x (dialled n) e f =
      elim (Option-cases (temp_blocked_site now ss url)) [
        | inl g ↦ temp_blocked-known now ss url vc e g
        | inr (t, g) ↦ absurd (cc (rw g at f))
      ]

  direct_site-returns :
      (now draw : ℕ) (ss : SiteStat) (url : Url) (vc : VisitCnt)
      → (user_specified vc ≡ true) ⊎ (lookup url.host ss.vcnt ≡ some vc)
      → (as_blocked now draw vc && not c.no_parent) ≡ false
      → (r : Connected Conn Err)
      → direct_site too_many_open_fd dial parent_dial c send_error now ss url vc r ≢ none
  unfolding direct_site
  direct_site-returns now draw ss url vc k b (connected t) f = absurd (cc f)
  direct_site-returns now draw ss url vc k b (page_sent r x) f = absurd (cc f)
  direct_site-returns now draw ss url vc k b (connect_error x) f = elim (Bool-cases c.no_parent) [
    | inl y ↦ absurd (cc (rw y at f))
    | inr n ↦ elim (Bool-cases (always_direct vc)) [
      | inl y ↦ absurd (cc (rw (n, y) at f))
      | inr m ↦ elim k [
        | inr e ↦ parent_instead-returns now ss url vc x parent_dial e (rw (n, m) at f)
        | inl u ↦ elim (Bool-cases (as_blocked now draw vc)) [
          | inl y ↦ absurd (cc (rw (n, y) at b))
          | inr q ↦ absurd (cc (m, user-always_direct now draw vc u q))
        ]
      ]
    ]
  ]

  -- `connectServer` with a count that `GetVisitCnt` handed out for the same URL does not panic,
  -- whatever the attempts give, the time and the draw are.
  pub connect_server-returns :
      (started asked now draw : ℕ) (ss ss' : SiteStat) (url : Url) (r : Ref) (vc : VisitCnt)
      → get_visit_cnt c.no_parent asked ss url ≡ (r, ss')
      → deref started ss' r ≡ some vc
      → connect_server too_many_open_fd dial parent_dial c send_error now draw ss' url vc ≢ none
  unfolding connect_server
  connect_server-returns started asked now draw ss ss' url r vc g d f =
      elim (Bool-cases c.always_proxy) [
        | inl y ↦ absurd (cc (rw y at f))
        | inr a ↦ elim (Bool-cases (as_blocked now draw vc && not c.no_parent)) [
          | inl y ↦ absurd (cc (rw (a, y) at f))
          | inr n ↦
              direct_site-returns now draw ss' url vc
                (served_known started asked c.no_parent ss ss' url r vc g d) n _ (rw (a, n) at f)
        ]
      ]

  parent_instead-blocks :
      (now : ℕ) (ss ss' : SiteStat) (url : Url) (x : Err) (r : Dialled Conn Err)
      (n : ServerNet Conn)
      → parent_instead too_many_open_fd dial parent_dial c send_error now ss url x r
        ≡ some (connected n, ss')
      → temp_blocked_site now ss url ≡ some ss'
  unfolding parent_instead
  parent_instead-blocks now ss ss' url x (dial_error y) n e = absurd (
      fail_page-ne too_many_open_fd dial parent_dial c send_error _ x n (outcome_eq (eq_of_some e)))
  parent_instead-blocks now ss ss' url x (dialled k) n e =
      elim (Option-cases (temp_blocked_site now ss url)) [
        | inl f ↦ absurd (cc (rw f at e))
        | inr (t, f) ↦ f ∙ ap some (cc (rw f at e))
      ]

  direct_site-blocks :
      (now : ℕ) (ss ss' : SiteStat) (url : Url) (vc : VisitCnt) (n : Conn)
      → (r : Connected Conn Err)
      → ((t : ServerNet Conn) → r ≡ connected t → (k : Conn) × (t ≡ direct_conn k))
      → direct_site too_many_open_fd dial parent_dial c send_error now ss url vc r
        ≡ some (connected (parent_conn n), ss')
      → temp_blocked_site now ss url ≡ some ss'
  unfolding direct_site
  direct_site-blocks now ss ss' url vc n (connected t) d e =
      let (k, f) = d t refl in let same : t ≡ parent_conn n = cc e in absurd (cc (f, same))
  direct_site-blocks now ss ss' url vc n (page_sent r x) d e = absurd (cc e)
  direct_site-blocks now ss ss' url vc n (connect_error x) d e = elim (Bool-cases c.no_parent) [
    | inl y ↦ absurd (failed _ x n (outcome_eq (eq_of_some (rw y at e))))
    | inr m ↦ elim (Bool-cases (always_direct vc)) [
      | inl y ↦ absurd (failed _ x n (outcome_eq (eq_of_some (rw (m, y) at e))))
      | inr q ↦ parent_instead-blocks now ss ss' url x parent_dial (parent_conn n) (rw (m, q) at e)
    ]
  ]
    where
      failed :
          (reason : Reason) (x : Err) (n : Conn)
          → fail_page send_error reason x ≢ connected (parent_conn n)
      failed reason x n =
          fail_page-ne too_many_open_fd dial parent_dial c send_error reason x (parent_conn n)

  -- When `connectServer`, the parents not being forced, hands out a parent's connection for a site
  -- that it did not take to be blocked, then the direct list of the table that it leaves has no
  -- host of the URL's domain.
  pub connect_server-learns :
      (now draw : ℕ) (ss ss' : SiteStat) (url : Url) (vc : VisitCnt) (n : Conn)
      → c.always_proxy ≡ false
      → as_blocked now draw vc ≡ false
      → connect_server too_many_open_fd dial parent_dial c send_error now draw ss url vc
        ≡ some (connected (parent_conn n), ss')
      → All (λ site. bytes_eq (host2domain site) url.domain ≡ false) (get_direct_list ss')
  unfolding connect_server
  connect_server-learns now draw ss ss' url vc n a b e = temp_blocked-direct_list now ss ss' url (
      direct_site-blocks now ss ss' url vc n _
        (λ t. connect_direct-direct too_many_open_fd dial parent_dial c send_error now vc t)
        (rw (a, b) at e))
