-- ===== src/ConnPool/Sound/Put.antt =====
-- conn_pool.go: `Put` keeps the channels in order.
use cow.Base.{
  ℕ, zero, suc, ◌<◌, ◌≡◌, refl, sym, ap, subst, ◌∙◌, inl, inr, false, Option, none, some, List, [],
  ◌∷◌, ◌++◌, arith, ltb, Bool-cases, eq_of_some, length, get_elem?, All, length-snoc, Bytes,
  bytes_eq, eq_of_bytes_eq, lookup, insert, lookup-insert,
}
use cow.ConnPool.{
  ServerConn, SiteChan, ConnPool, ChanRef, mux, site, buffered, conns_of, put_conn_to_chan,
  site_chan, put, chan_cap, supports_mux, max_server_conn_cnt,
}
use cow.ConnPool.Sound.{
  IsMux, IsOf, Holds, name_at, IsSound, FitsAt, Fits, All-snoc, set-IsSound, close_conn-IsSound,
}

FitsAt-snoc :
    (cs : List SiteChan) (i : ℕ) (sv : ServerConn)
    → All (λ c. Holds c.name c.conns) cs
    → supports_mux sv.kind ≡ false
    → name_at cs i ≡ some sv.host_port
    → length (conns_of (get_elem? cs i)) < max_server_conn_cnt
    → FitsAt cs i (conns_of (get_elem? cs i) ++ sv ∷ [])
unfolding conns_of
FitsAt-snoc [] i sv a k n h = tt
FitsAt-snoc (c ∷ cs) zero sv a k n h = (
  All-snoc (IsOf c.name) c.conns sv a.0.0 (k, sym (eq_of_some n)),
  omega (arith, length-snoc c.conns sv),
)
FitsAt-snoc (c ∷ cs) (suc i) sv a k n h = FitsAt-snoc cs i sv a.1 k n h

-- The channel is one for the connection.
abbrev Takes : ConnPool → ChanRef → ServerConn → Type 0
Takes p mux sv = IsMux sv
Takes p (site i) sv = (supports_mux sv.kind ≡ false) × (name_at p.chans i ≡ some sv.host_port)

Fits-snoc :
    (p : ConnPool) (ch : ChanRef) (sv : ServerConn)
    → IsSound p
    → Takes p ch sv
    → length (buffered p ch) < chan_cap ch
    → Fits p ch (buffered p ch ++ sv ∷ [])
unfolding buffered
Fits-snoc p mux sv s t h =
    (All-snoc IsMux p.mux_conn sv s.mux_kind t, omega (arith, length-snoc p.mux_conn sv))
Fits-snoc p (site i) sv s t h = FitsAt-snoc p.chans i sv s.sites t.0 t.1 h

put_conn-IsSound :
    (sv : ServerConn) (ch : ChanRef) (p : ConnPool)
    → IsSound p
    → Takes p ch sv
    → IsSound (put_conn_to_chan sv ch p)
unfolding put_conn_to_chan
put_conn-IsSound sv ch p s t = elim (Bool-cases (ltb (length (buffered p ch)) (chan_cap ch))) [
  | inl y ↦ rw y (set-IsSound p ch _ s (Fits-snoc p ch sv s t (ground arith)))
  | inr f ↦ rw f (close_conn-IsSound p sv s)
]

name_at-append :
    (cs : List SiteChan) (c : SiteChan) (i : ℕ) (h : Bytes)
    → name_at cs i ≡ some h
    → name_at (cs ++ c ∷ []) i ≡ some h
name_at-append [] c i h e = cc
name_at-append (d ∷ cs) c zero h e = e
name_at-append (d ∷ cs) c (suc i) h e = name_at-append cs c i h e

name_at_last :
    (cs : List SiteChan) (c : SiteChan) → name_at (cs ++ c ∷ []) (length cs) ≡ some c.name
name_at_last [] c = refl
name_at_last (d ∷ cs) c = name_at_last cs c

sites-append :
    (cs : List SiteChan) (h : Bytes)
    → All (λ c. Holds c.name c.conns) cs
    → All (λ c. Holds c.name c.conns) (cs ++ record { name = h; conns = [] } ∷ [])
sites-append [] h a = ((tt, omega arith), tt)
sites-append (c ∷ cs) h a = (a.0, sites-append cs h a.1)

mapped-insert :
    (h : Bytes) (p : ConnPool) (j : Bytes) (i : ℕ)
    → IsSound p
    → lookup j (insert h (length p.chans) p.idle_conn) ≡ some i
    → name_at (p.chans ++ record { name = h; conns = [] } ∷ []) i ≡ some j
mapped-insert h p j i s e = elim (Bool-cases (bytes_eq h j)) [
  | inl y ↦
      subst (λ k. name_at (p.chans ++ record { name = h; conns = [] } ∷ []) k ≡ some j)
        (eq_of_some (rw (lookup-insert h j (length p.chans) p.idle_conn, y) at e))
        (name_at_last p.chans _ ∙ ap some (eq_of_bytes_eq h j y))
  | inr n ↦
      name_at-append p.chans _ i j
        (s.mapped j i (rw (lookup-insert h j (length p.chans) p.idle_conn, n) at e))
]

site_chan-IsSound :
    (h : Bytes) (o : Option ℕ) (p : ConnPool) → IsSound p → IsSound (site_chan h o p).1
unfolding site_chan
site_chan-IsSound h (some i) p s = s
site_chan-IsSound h none p s = record {
  mux_kind = s.mux_kind;
  mux_room = s.mux_room;
  sites = sites-append p.chans h s.sites;
  mapped = λ j i e. mapped-insert h p j i s e;
}

site_chan-Takes :
    (sv : ServerConn) (o : Option ℕ) (p : ConnPool)
    → supports_mux sv.kind ≡ false
    → ((i : ℕ) → o ≡ some i → name_at p.chans i ≡ some sv.host_port)
    → Takes (site_chan sv.host_port o p).1 (site_chan sv.host_port o p).0 sv
unfolding site_chan
site_chan-Takes sv (some i) p k f = (k, f i refl)
site_chan-Takes sv none p k f = (k, name_at_last p.chans _)

pub put-IsSound : (sv : ServerConn) (p : ConnPool) → IsSound p → IsSound (put sv p)
unfolding put
put-IsSound sv p s = elim (Bool-cases (supports_mux sv.kind)) [
  | inl y ↦ rw y (put_conn-IsSound sv mux p s y)
  | inr f ↦ rw f (
      put_conn-IsSound sv _ _ (site_chan-IsSound sv.host_port _ p s)
        (site_chan-Takes sv _ p f (s.mapped sv.host_port)))
]
