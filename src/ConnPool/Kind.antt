-- ===== src/ConnPool/Kind.antt =====
-- conn_pool.go: which connections `Get` returns.
use cow.Base.{
  ℕ, zero, suc, ◌<◌, ◌≡◌, refl, subst, ◌∙◌, ◌⊎◌, inl, inr, Bool, true, false, not, ◌&&◌, Option,
  none, some, List, [], ◌∷◌, arith, Bool-cases, Option-cases, eq_of_some, length, get_elem?, All,
  Bytes, lookup,
}
use cow.ConnPool.{
  ServerConn, SiteChan, ConnPool, ChanRef, mux, site, buffered, conns_of, receive,
  get_conn_from_chan, get_from_site, get,
}
use cow.ConnPool.Conserve.{HasChans}
use cow.ConnPool.Sound.{IsMux, IsOf, Holds, name_at, IsSound}
use cow.ConnPool.Sound.Get.{get_from_site-IsSound}

abbrev IsFresh : (ServerConn → Bool) → (ServerConn → Type 0) → ServerConn → Type 0
IsFresh may_be_closed P sv = (may_be_closed sv ≡ false) × P sv

module _ (may_be_closed : ServerConn → Bool) where
  receive_from :
      (P : ServerConn → Type 0) (ch : ChanRef) (l : List ServerConn) (p : ConnPool)
      (sv : ServerConn)
      → All P l
      → (receive may_be_closed ch l p).0 ≡ some sv
      → IsFresh may_be_closed P sv
  unfolding receive
  receive_from P ch [] p sv a e = cc
  receive_from P ch (x ∷ l) p sv a e = elim (Bool-cases (may_be_closed x)) [
    | inl y ↦ receive_from P ch l _ sv a.1 (rw (y, receive) at e)
    | inr f ↦ subst (IsFresh may_be_closed P) (eq_of_some (rw (f, receive) at e)) (f, a.0)
  ]

  site_conns :
      (cs : List SiteChan) (i : ℕ) (h : Bytes)
      → All (λ c. Holds c.name c.conns) cs
      → name_at cs i ≡ some h
      → All (IsOf h) (conns_of (get_elem? cs i))
  unfolding conns_of
  site_conns [] i h a e = cc
  site_conns (c ∷ cs) zero h a e = subst (λ k. All (IsOf k) c.conns) (eq_of_some e) a.0.0
  site_conns (c ∷ cs) (suc i) h a e = site_conns cs i h a.1 e

  from_site :
      (h : Bytes) (o : Option ℕ) (p : ConnPool) (sv : ServerConn)
      → IsSound p
      → ((i : ℕ) → o ≡ some i → name_at p.chans i ≡ some h)
      → (get_from_site may_be_closed o p).0 ≡ some sv
      → IsFresh may_be_closed (IsOf h) sv
  unfolding get_from_site get_conn_from_chan buffered
  from_site h none p sv s f e = cc
  from_site h (some i) p sv s f e =
      receive_from (IsOf h) (site i) (conns_of (get_elem? p.chans i)) p sv
        (site_conns p.chans i h s.sites (f i refl)) e

  from_mux :
      (p : ConnPool) (sv : ServerConn)
      → IsSound p
      → (get_conn_from_chan may_be_closed mux p).0 ≡ some sv
      → IsFresh may_be_closed IsMux sv
  unfolding get_conn_from_chan buffered
  from_mux p sv s e = receive_from IsMux mux p.mux_conn p sv s.mux_kind e

  -- A connection that `Get` returns is not one that may be closed, and is either of the site
  -- itself or a shared one to an HTTP or COW parent. The latter happens only if the request is
  -- not for a direct site, or `AlwaysProxy` is set. A site's own connections may lead to it
  -- through a SOCKS or shadowsocks parent.
  pub get_kind :
      (always_proxy : Bool) (h : Bytes) (as_direct : Bool) (p : ConnPool) (sv : ServerConn)
      → IsSound p
      → (get may_be_closed always_proxy h as_direct p).0 ≡ some sv
      → (may_be_closed sv ≡ false)
        × (IsOf h sv ⊎ (IsMux sv × ((as_direct ≡ false) ⊎ (always_proxy ≡ true))))
  unfolding get
  get_kind always_proxy h as_direct p sv s e =
      let (found, q) = get_from_site may_be_closed (lookup h p.idle_conn) p in
      elim (Option-cases found) [
        | inr (x, f) ↦
            let fresh =
              from_site h (lookup h p.idle_conn) p sv s (s.mapped h) (f ∙ rw (f, get) at e) in
            (fresh.0, inl fresh.1)
        | inl f ↦ elim (Bool-cases (as_direct && not always_proxy)) [
          | inl y ↦ absurd (cc (rw (f, get, y) at e))
          | inr n ↦
              let fresh =
                from_mux q sv (get_from_site-IsSound may_be_closed (lookup h p.idle_conn) p s)
                  (rw (f, get, n) at e) in
              (fresh.0, inr (fresh.1, ground arith))
        ]
      ]

name_at-lt : (cs : List SiteChan) (i : ℕ) (h : Bytes) → name_at cs i ≡ some h → i < length cs
name_at-lt [] i h e = cc
name_at-lt (c ∷ cs) zero h e = omega arith
name_at-lt (c ∷ cs) (suc i) h e = omega (arith, name_at-lt cs i h e)

-- What the conservation of connections supposes of a pool holds in every pool in order.
pub IsSound-HasChans : (p : ConnPool) → IsSound p → HasChans p
IsSound-HasChans p s = record { has = λ h i e. name_at-lt p.chans i h (s.mapped h i e) }
