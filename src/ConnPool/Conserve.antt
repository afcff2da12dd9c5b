-- ===== src/ConnPool/Conserve.antt =====
-- conn_pool.go: no connection is lost, made up or closed twice.
use cow.Base.{
  ℕ, zero, suc, ◌+◌, ◌≤◌, ◌<◌, ◌≡◌, refl, ap, ◌∙◌, inl, inr, Bool, true, not, ◌&&◌, Option, none,
  some, List, [], ◌∷◌, ◌++◌, arith, dec_lt, ◌==◌, if◌then◌else◌, Bool-cases, Option-cases, length,
  get_elem?, length-snoc, List-cases, Bytes, lookup,
}
use cow.ConnPool.{
  ServerConn, SiteChan, ConnPool, ChanRef, mux, site, buffered, conns_of, set_buffered, with_conns,
  close_conn, receive, get_conn_from_chan, get_from_site, get, put_conn_to_chan, site_chan, put,
  remove_chan, close_or_put_back, close_rounds, close_server_conn, close_sites, drain, supports_mux,
}

-- How many connections of a number a list holds.
abbrev pub amount : ℕ → List ServerConn → ℕ
amount n [] = 0
amount n (sv ∷ l) = (if sv.number == n then 1 else 0) + amount n l

abbrev pub amount_in_chans : ℕ → List SiteChan → ℕ
amount_in_chans n [] = 0
amount_in_chans n (c ∷ cs) = amount n c.conns + amount_in_chans n cs

-- In the pool or closed.
abbrev pub total : ℕ → ConnPool → ℕ
total n p = amount n p.mux_conn + amount_in_chans n p.chans + amount n p.closed

abbrev pub IsChan : ConnPool → ChanRef → Type 0
IsChan p mux = Unit
IsChan p (site i) = i < length p.chans

-- What the map points to exists.
pub record HasChans (p : ConnPool) : Type 0 where
  pub has : (h : Bytes) (i : ℕ) → lookup h p.idle_conn ≡ some i → i < length p.chans

amount-append : (n : ℕ) (l m : List ServerConn) → amount n (l ++ m) ≡ amount n l + amount n m
amount-append n [] m = omega arith
amount-append n (sv ∷ l) m = omega (arith, amount-append n l m)

amount_in_chans-append :
    (n : ℕ) (cs ds : List SiteChan)
    → amount_in_chans n (cs ++ ds) ≡ amount_in_chans n cs + amount_in_chans n ds
amount_in_chans-append n [] ds = omega arith
amount_in_chans-append n (c ∷ cs) ds = omega (arith, amount_in_chans-append n cs ds)

with_conns-amount :
    (n : ℕ) (cs : List SiteChan) (i : ℕ) (l : List ServerConn)
    → i < length cs
    → amount_in_chans n (with_conns cs i l) + amount n (conns_of (get_elem? cs i))
      ≡ amount_in_chans n cs + amount n l
unfolding with_conns conns_of
with_conns-amount n [] i l h = elim h [ ]
with_conns-amount n (c ∷ cs) zero l h = omega arith
with_conns-amount n (c ∷ cs) (suc i) l h = omega (arith, with_conns-amount n cs i l (omega arith))

conns_of-with_conns :
    (cs : List SiteChan) (i : ℕ) (l : List ServerConn)
    → i < length cs
    → conns_of (get_elem? (with_conns cs i l) i) ≡ l
unfolding with_conns conns_of
conns_of-with_conns [] i l h = elim h [ ]
conns_of-with_conns (c ∷ cs) zero l h = refl
conns_of-with_conns (c ∷ cs) (suc i) l h = conns_of-with_conns cs i l (omega arith)

pub length-with_conns :
    (cs : List SiteChan) (i : ℕ) (l : List ServerConn) → length (with_conns cs i l) ≡ length cs
unfolding with_conns
length-with_conns [] i l = refl
length-with_conns (c ∷ cs) zero l = refl
length-with_conns (c ∷ cs) (suc i) l = ap suc (length-with_conns cs i l)

conns_of_none : (cs : List SiteChan) (i : ℕ) → length cs ≤ i → conns_of (get_elem? cs i) ≡ []
unfolding conns_of
conns_of_none [] i h = refl
conns_of_none (c ∷ cs) zero h = absurd (omega arith)
conns_of_none (c ∷ cs) (suc i) h = conns_of_none cs i (omega arith)

-- A channel that has a connection exists.
pub IsChan-of_cons :
    (p : ConnPool) (ch : ChanRef) (sv : ServerConn) (l : List ServerConn)
    → buffered p ch ≡ sv ∷ l
    → IsChan p ch
unfolding buffered
IsChan-of_cons p mux sv l e = tt
IsChan-of_cons p (site i) sv l e = elim (dec_lt i (length p.chans)) [
  | yes h ↦ h
  | no h ↦ absurd (cc (e, conns_of_none p.chans i (omega arith)))
]

pub buffered-set :
    (p : ConnPool) (ch : ChanRef) (l : List ServerConn)
    → IsChan p ch
    → buffered (set_buffered p ch l) ch ≡ l
unfolding buffered set_buffered
buffered-set p mux l h = refl
buffered-set p (site i) l h = conns_of-with_conns p.chans i l h

total-set :
    (n : ℕ) (p : ConnPool) (ch : ChanRef) (l : List ServerConn)
    → IsChan p ch
    → total n (set_buffered p ch l) + amount n (buffered p ch) ≡ total n p + amount n l
unfolding buffered set_buffered
total-set n p mux l h = omega arith
total-set n p (site i) l h = omega (arith, with_conns-amount n p.chans i l h)

IsChan-set :
    (p : ConnPool) (ch d : ChanRef) (l : List ServerConn)
    → IsChan p d
    → IsChan (set_buffered p ch l) d
unfolding set_buffered
IsChan-set p ch mux l h = tt
IsChan-set p mux (site j) l h = h
IsChan-set p (site i) (site j) l h = omega (arith, length-with_conns p.chans i l)

pub buffered-close :
    (p : ConnPool) (sv : ServerConn) (ch : ChanRef) → buffered (close_conn sv p) ch ≡ buffered p ch
unfolding buffered
buffered-close p sv mux = refl
buffered-close p sv (site i) = refl

-- Taking the next connection out of a channel.
module _ (p : ConnPool) (ch : ChanRef) (sv : ServerConn) (rest : List ServerConn)
    (e : buffered p ch ≡ sv ∷ rest) where
  take-total : (n : ℕ) → total n (set_buffered p ch rest) + amount n (sv ∷ []) ≡ total n p
  take-total n =
      let moved = rw e at (total-set n p ch rest (IsChan-of_cons p ch sv rest e)) in omega arith

  pub buffered-take : buffered (close_conn sv (set_buffered p ch rest)) ch ≡ rest
  buffered-take =
      buffered-close (set_buffered p ch rest) sv ch
      ∙ buffered-set p ch rest (IsChan-of_cons p ch sv rest e)

abbrev pub amount_of : ℕ → Option ServerConn → ℕ
amount_of n none = 0
amount_of n (some sv) = amount n (sv ∷ [])

module _ (n : ℕ) (may_be_closed : ServerConn → Bool) where
  receive-total :
      (ch : ChanRef) (l : List ServerConn) (p : ConnPool)
      → buffered p ch ≡ l
      → total n (receive may_be_closed ch l p).1 + amount_of n (receive may_be_closed ch l p).0
        ≡ total n p
  unfolding receive
  receive-total ch [] p e = omega arith
  receive-total ch (sv ∷ rest) p e =
      let taken = take-total p ch sv rest e n in
      elim (Bool-cases (may_be_closed sv)) [
        | inl y ↦
            let ih =
              receive-total ch rest (close_conn sv (set_buffered p ch rest))
                (buffered-take p ch sv rest e) in
            rw (y, receive) (omega arith)
        | inr f ↦ rw (f, receive) taken
      ]

  get_conn-total :
      (ch : ChanRef) (p : ConnPool)
      → total n (get_conn_from_chan may_be_closed ch p).1
          + amount_of n (get_conn_from_chan may_be_closed ch p).0
        ≡ total n p
  unfolding get_conn_from_chan
  get_conn-total ch p = receive-total ch (buffered p ch) p refl

  get_from_site-total :
      (o : Option ℕ) (p : ConnPool)
      → total n (get_from_site may_be_closed o p).1
          + amount_of n (get_from_site may_be_closed o p).0
        ≡ total n p
  unfolding get_from_site
  get_from_site-total none p = omega arith
  get_from_site-total (some i) p = get_conn-total (site i) p

  -- `Get` takes out of the pool what it returns and nothing else: every other connection is
  -- where it was, still in the pool or now closed.
  pub get-total :
      (always_proxy : Bool) (host_port : Bytes) (as_direct : Bool) (p : ConnPool)
      → total n (get may_be_closed always_proxy host_port as_direct p).1
          + amount_of n (get may_be_closed always_proxy host_port as_direct p).0
        ≡ total n p
  unfolding get
  get-total always_proxy host_port as_direct p =
      let (found, q) = get_from_site may_be_closed (lookup host_port p.idle_conn) p in
      let first = get_from_site-total (lookup host_port p.idle_conn) p in
      elim (Option-cases found) [
        | inr (sv, e) ↦ rw (e, get) (rw e at first)
        | inl e ↦
            let same : total n q ≡ total n p = omega (arith, rw e at first) in
            rw (e, get)
              (elim (Bool-cases (as_direct && not always_proxy)) [
                | inl y ↦ rw y (rw e at first)
                | inr f ↦ rw f (get_conn-total mux q ∙ same)
              ])
      ]

  close_or_put_back-total :
      (force : Bool) (ch : ChanRef) (sv : ServerConn) (rest : List ServerConn) (p : ConnPool)
      → buffered p ch ≡ sv ∷ rest
      → total n (close_or_put_back may_be_closed force ch sv rest p) ≡ total n p
  unfolding close_or_put_back
  close_or_put_back-total force ch sv rest p e =
      let taken = take-total p ch sv rest e n in
      let moved = rw e at (total-set n p ch (rest ++ sv ∷ []) (IsChan-of_cons p ch sv rest e)) in
      ground (arith, amount-append n rest (sv ∷ []))

  remove_chan-total :
      (ch : ChanRef) (h : Bytes) (p : ConnPool) → total n (remove_chan ch h p) ≡ total n p
  unfolding remove_chan
  remove_chan-total ch h p = ground arith

  pub close_rounds-total :
      (force : Bool) (lcnt : ℕ) (ch : ChanRef) (h : Bytes) (p : ConnPool)
      → total n (close_rounds may_be_closed force lcnt ch h p).1 ≡ total n p
  unfolding close_rounds
  close_rounds-total force zero ch h p = refl
  close_rounds-total force (suc lcnt) ch h p = elim (List-cases (buffered p ch)) [
    | inl e ↦ rw (e, close_rounds) (remove_chan-total ch h p)
    | inr (sv, rest, e) ↦
        rw (e, close_rounds)
          (close_rounds-total force lcnt ch h _ ∙ close_or_put_back-total force ch sv rest p e)
  ]

  pub close_sites-total :
      (l : List (Bytes × ℕ)) (p : ConnPool) → total n (close_sites may_be_closed l p) ≡ total n p
  unfolding close_sites close_server_conn
  close_sites-total [] p = refl
  close_sites-total ((h, i) ∷ l) p = close_sites-total l _ ∙ close_rounds-total true _ (site i) h p

  pub drain-total :
      (l : List ServerConn) (ch : ChanRef) (p : ConnPool)
      → buffered p ch ≡ l
      → total n (drain l ch p) ≡ total n p
  unfolding drain
  drain-total [] ch p e = refl
  drain-total (sv ∷ rest) ch p e =
      let taken = take-total p ch sv rest e n in
      drain-total rest ch (close_conn sv (set_buffered p ch rest)) (buffered-take p ch sv rest e)
      ∙ omega arith

put_conn_to_chan-total :
    (n : ℕ) (sv : ServerConn) (ch : ChanRef) (p : ConnPool)
    → IsChan p ch
    → total n (put_conn_to_chan sv ch p) ≡ total n p + amount n (sv ∷ [])
unfolding put_conn_to_chan
put_conn_to_chan-total n sv ch p h =
    let moved = total-set n p ch (buffered p ch ++ sv ∷ []) h in
    ground (arith, amount-append n (buffered p ch) (sv ∷ []))

site_chan-IsChan :
    (h : Bytes) (o : Option ℕ) (p : ConnPool)
    → ((i : ℕ) → o ≡ some i → i < length p.chans)
    → IsChan (site_chan h o p).1 (site_chan h o p).0
unfolding site_chan
site_chan-IsChan h (some i) p f = f i refl
site_chan-IsChan h none p f = omega (arith, length-snoc p.chans (record { name = h; conns = [] }))

site_chan-total :
    (n : ℕ) (h : Bytes) (o : Option ℕ) (p : ConnPool) → total n (site_chan h o p).1 ≡ total n p
unfolding site_chan
site_chan-total n h (some i) p = refl
site_chan-total n h none p =
    omega (arith, amount_in_chans-append n p.chans (record { name = h; conns = [] } ∷ []))

-- `Put` adds the connection it is given, once, to the pool or to the closed ones, and keeps all
-- others.
pub put-total :
    (n : ℕ) (sv : ServerConn) (p : ConnPool)
    → HasChans p
    → total n (put sv p) ≡ total n p + amount n (sv ∷ [])
unfolding put
put-total n sv p h = elim (Bool-cases (supports_mux sv.kind)) [
  | inl y ↦ rw y (put_conn_to_chan-total n sv mux p tt)
  | inr f ↦
      let o = lookup sv.host_port p.idle_conn in
      let same = site_chan-total n sv.host_port o p in
      let added =
        put_conn_to_chan-total n sv (site_chan sv.host_port o p).0 (site_chan sv.host_port o p).1
          (site_chan-IsChan sv.host_port o p (h.has sv.host_port)) in
      rw f (omega arith)
]
