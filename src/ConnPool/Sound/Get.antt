-- ===== src/ConnPool/Sound/Get.antt =====
-- conn_pool.go: taking connections out keeps the channels in order.
use cow.Base.{
  ℕ, zero, suc, ◌≡◌, refl, inl, inr, Bool, true, not, ◌&&◌, ◌||◌, Option, none, some, List, [], ◌∷◌,
  ◌++◌, arith, Bool-cases, Option-cases, List-cases, Bytes, lookup,
}
use cow.ConnPool.{
  ServerConn, ConnPool, ChanRef, mux, site, buffered, receive, get_conn_from_chan, get_from_site,
  get, remove_chan, close_or_put_back, close_rounds, close_server_conn, close_sites, close_all,
  drain,
}
use cow.ConnPool.Conserve.{buffered-take}
use cow.ConnPool.Sound.{
  IsSound, set-IsSound, close_conn-IsSound, delete-IsSound, take-Fits, take-IsSound,
}

module _ (may_be_closed : ServerConn → Bool) where
  receive-IsSound :
      (ch : ChanRef) (l : List ServerConn) (p : ConnPool)
      → IsSound p
      → buffered p ch ≡ l
      → IsSound (receive may_be_closed ch l p).1
  unfolding receive
  receive-IsSound ch [] p s e = s
  receive-IsSound ch (sv ∷ rest) p s e =
      let taken = take-IsSound p ch sv rest s e in
      elim (Bool-cases (may_be_closed sv)) [
        | inl y ↦
            rw (y, receive)
              (receive-IsSound ch rest _ (close_conn-IsSound _ sv taken)
                (buffered-take p ch sv rest e))
        | inr f ↦ rw (f, receive) taken
      ]

  get_conn-IsSound :
      (ch : ChanRef) (p : ConnPool) → IsSound p → IsSound (get_conn_from_chan may_be_closed ch p).1
  unfolding get_conn_from_chan
  get_conn-IsSound ch p s = receive-IsSound ch (buffered p ch) p s refl

  pub get_from_site-IsSound :
      (o : Option ℕ) (p : ConnPool) → IsSound p → IsSound (get_from_site may_be_closed o p).1
  unfolding get_from_site
  get_from_site-IsSound none p s = s
  get_from_site-IsSound (some i) p s = get_conn-IsSound (site i) p s

  pub get-IsSound :
      (always_proxy : Bool) (h : Bytes) (as_direct : Bool) (p : ConnPool)
      → IsSound p
      → IsSound (get may_be_closed always_proxy h as_direct p).1
  unfolding get
  get-IsSound always_proxy h as_direct p s =
      let (found, q) = get_from_site may_be_closed (lookup h p.idle_conn) p in
      let first = get_from_site-IsSound (lookup h p.idle_conn) p s in
      elim (Option-cases found) [
        | inr (sv, e) ↦ rw (e, get) first
        | inl e ↦
            rw (e, get)
              (elim (Bool-cases (as_direct && not always_proxy)) [
                | inl y ↦ rw y first
                | inr f ↦ rw f (get_conn-IsSound mux q first)
              ])
      ]

  remove_chan-IsSound :
      (ch : ChanRef) (h : Bytes) (p : ConnPool) → IsSound p → IsSound (remove_chan ch h p)
  unfolding remove_chan
  remove_chan-IsSound ch h p s = ground (arith, delete-IsSound h p s)

  round-IsSound :
      (force : Bool) (ch : ChanRef) (sv : ServerConn) (rest : List ServerConn) (p : ConnPool)
      → IsSound p
      → buffered p ch ≡ sv ∷ rest
      → IsSound (close_or_put_back may_be_closed force ch sv rest p)
  unfolding close_or_put_back
  round-IsSound force ch sv rest p s e = elim (Bool-cases (force || may_be_closed sv)) [
    | inl y ↦ rw y (close_conn-IsSound _ sv (take-IsSound p ch sv rest s e))
    | inr f ↦ rw f (set-IsSound p ch (rest ++ sv ∷ []) s (take-Fits p ch sv rest s e).1)
  ]

  pub close_rounds-IsSound :
      (force : Bool) (lcnt : ℕ) (ch : ChanRef) (h : Bytes) (p : ConnPool)
      → IsSound p
      → IsSound (close_rounds may_be_closed force lcnt ch h p).1
  unfolding close_rounds
  close_rounds-IsSound force zero ch h p s = s
  close_rounds-IsSound force (suc lcnt) ch h p s = elim (List-cases (buffered p ch)) [
    | inl e ↦ rw (e, close_rounds) (remove_chan-IsSound ch h p s)
    | inr (sv, rest, e) ↦
        rw (e, close_rounds)
          (close_rounds-IsSound force lcnt ch h _ (round-IsSound force ch sv rest p s e))
  ]

  close_sites-IsSound :
      (l : List (Bytes × ℕ)) (p : ConnPool) → IsSound p → IsSound (close_sites may_be_closed l p)
  unfolding close_sites close_server_conn
  close_sites-IsSound [] p s = s
  close_sites-IsSound ((h, i) ∷ l) p s =
      close_sites-IsSound l _ (close_rounds-IsSound true _ (site i) h p s)

  pub close_all-IsSound : (p : ConnPool) → IsSound p → IsSound (close_all may_be_closed p)
  unfolding close_all close_server_conn
  close_all-IsSound p s = close_rounds-IsSound true _ mux _ _ (close_sites-IsSound p.idle_conn p s)

  pub drain-IsSound :
      (l : List ServerConn) (ch : ChanRef) (p : ConnPool)
      → IsSound p
      → buffered p ch ≡ l
      → IsSound (drain l ch p)
  unfolding drain
  drain-IsSound [] ch p s e = s
  drain-IsSound (sv ∷ rest) ch p s e =
      drain-IsSound rest ch _ (close_conn-IsSound _ sv (take-IsSound p ch sv rest s e))
        (buffered-take p ch sv rest e)
