-- ===== src/ConnPool/Sound.antt =====
-- conn_pool.go: each channel holds its own connections, within its capacity.
pub mod Get
pub mod Put
pub mod Steps
use cow.Base.{
  ℕ, zero, suc, ◌+◌, ◌-◌, ◌*◌, ◌≤◌, ◌≡◌, refl, ◌∙◌, true, false, Option, none, some, List, [], ◌∷◌,
  ◌++◌, arith, length, get_elem?, All, length-snoc, Bytes, Map, lookup, delete, lookup-delete,
}
use cow.ConnPool.{
  ServerConn, SiteChan, ConnPool, ChanRef, mux, site, buffered, conns_of, set_buffered, with_conns,
  close_conn, supports_mux, new_conn_pool, max_server_conn_cnt,
}

abbrev pub IsMux : ServerConn → Type 0
IsMux sv = supports_mux sv.kind ≡ true

-- A connection that only serves its own site.
abbrev pub IsOf : Bytes → ServerConn → Type 0
IsOf h sv = (supports_mux sv.kind ≡ false) × (sv.host_port ≡ h)

abbrev pub Holds : Bytes → List ServerConn → Type 0
Holds h l = All (IsOf h) l × (length l ≤ max_server_conn_cnt)

abbrev pub name_at : List SiteChan → ℕ → Option Bytes
name_at [] i = none
name_at (c ∷ cs) zero = some c.name
name_at (c ∷ cs) (suc i) = name_at cs i

pub record IsSound (p : ConnPool) : Type 0 where
  pub mux_kind : All IsMux p.mux_conn
  pub mux_room : length p.mux_conn ≤ max_server_conn_cnt * 2
  pub sites : All (λ c. Holds c.name c.conns) p.chans
  pub mapped : (h : Bytes) (i : ℕ) → lookup h p.idle_conn ≡ some i → name_at p.chans i ≡ some h

pub new_conn_pool-IsSound : IsSound new_conn_pool
unfolding new_conn_pool lookup
new_conn_pool-IsSound = record {
  mux_kind = tt;
  mux_room = omega arith;
  sites = tt;
  mapped = λ h i e. cc;
}

-- What may stand in the buffer of a channel.
abbrev pub FitsAt : List SiteChan → ℕ → List ServerConn → Type 0
FitsAt [] i l = Unit
FitsAt (c ∷ cs) zero l = Holds c.name l
FitsAt (c ∷ cs) (suc i) l = FitsAt cs i l

abbrev pub Fits : ConnPool → ChanRef → List ServerConn → Type 0
Fits p mux l = All IsMux l × (length l ≤ max_server_conn_cnt * 2)
Fits p (site i) l = FitsAt p.chans i l

with_conns-sites :
    (cs : List SiteChan) (i : ℕ) (l : List ServerConn)
    → All (λ c. Holds c.name c.conns) cs
    → FitsAt cs i l
    → All (λ c. Holds c.name c.conns) (with_conns cs i l)
unfolding with_conns
with_conns-sites [] i l a f = tt
with_conns-sites (c ∷ cs) zero l a f = (f, a.1)
with_conns-sites (c ∷ cs) (suc i) l a f = (a.0, with_conns-sites cs i l a.1 f)

name_at-with_conns :
    (cs : List SiteChan) (i : ℕ) (l : List ServerConn) (j : ℕ)
    → name_at (with_conns cs i l) j ≡ name_at cs j
unfolding with_conns
name_at-with_conns [] i l j = refl
name_at-with_conns (c ∷ cs) zero l zero = refl
name_at-with_conns (c ∷ cs) zero l (suc j) = refl
name_at-with_conns (c ∷ cs) (suc i) l zero = refl
name_at-with_conns (c ∷ cs) (suc i) l (suc j) = name_at-with_conns cs i l j

buffered-FitsAt :
    (cs : List SiteChan) (i : ℕ)
    → All (λ c. Holds c.name c.conns) cs
    → FitsAt cs i (conns_of (get_elem? cs i))
unfolding conns_of
buffered-FitsAt [] i a = tt
buffered-FitsAt (c ∷ cs) zero a = a.0
buffered-FitsAt (c ∷ cs) (suc i) a = buffered-FitsAt cs i a.1

buffered-Fits : (p : ConnPool) (ch : ChanRef) → IsSound p → Fits p ch (buffered p ch)
unfolding buffered
buffered-Fits p mux s = (s.mux_kind, s.mux_room)
buffered-Fits p (site i) s = buffered-FitsAt p.chans i s.sites

pub All-snoc :
    (P : ServerConn → Type 0) (l : List ServerConn) (sv : ServerConn)
    → All P l
    → P sv
    → All P (l ++ sv ∷ [])
All-snoc P [] sv a b = (b, tt)
All-snoc P (x ∷ l) sv a b = (a.0, All-snoc P l sv a.1 b)

-- The tail of a buffer fits, and so does the buffer with its head moved to the end.
FitsAt-cons :
    (cs : List SiteChan) (i : ℕ) (sv : ServerConn) (l : List ServerConn)
    → FitsAt cs i (sv ∷ l)
    → FitsAt cs i l × FitsAt cs i (l ++ sv ∷ [])
FitsAt-cons [] i sv l f = (tt, tt)
FitsAt-cons (c ∷ cs) zero sv l f = (
  (f.0.1, omega arith),
  (All-snoc (IsOf c.name) l sv f.0.1 f.0.0, omega (arith, length-snoc l sv)),
)
FitsAt-cons (c ∷ cs) (suc i) sv l f = FitsAt-cons cs i sv l f

Fits-cons :
    (p : ConnPool) (ch : ChanRef) (sv : ServerConn) (l : List ServerConn)
    → Fits p ch (sv ∷ l)
    → Fits p ch l × Fits p ch (l ++ sv ∷ [])
Fits-cons p mux sv l f =
    ((f.0.1, omega arith), (All-snoc IsMux l sv f.0.1 f.0.0, omega (arith, length-snoc l sv)))
Fits-cons p (site i) sv l f = FitsAt-cons p.chans i sv l f

pub set-IsSound :
    (p : ConnPool) (ch : ChanRef) (l : List ServerConn)
    → IsSound p
    → Fits p ch l
    → IsSound (set_buffered p ch l)
unfolding set_buffered
set-IsSound p mux l s f = record {
  mux_kind = f.0;
  mux_room = f.1;
  sites = s.sites;
  mapped = s.mapped;
}
set-IsSound p (site i) l s f = record {
  mux_kind = s.mux_kind;
  mux_room = s.mux_room;
  sites = with_conns-sites p.chans i l s.sites f;
  mapped = λ h j e. name_at-with_conns p.chans i l j ∙ s.mapped h j e;
}

pub close_conn-IsSound : (p : ConnPool) (sv : ServerConn) → IsSound p → IsSound (close_conn sv p)
close_conn-IsSound p sv s = record {
  mux_kind = s.mux_kind;
  mux_room = s.mux_room;
  sites = s.sites;
  mapped = s.mapped;
}

-- Taking the next connection out of a channel.
module _ (p : ConnPool) (ch : ChanRef) (sv : ServerConn) (rest : List ServerConn) (s : IsSound p)
    (e : buffered p ch ≡ sv ∷ rest) where
  pub take-Fits : Fits p ch rest × Fits p ch (rest ++ sv ∷ [])
  take-Fits = Fits-cons p ch sv rest (rw e at (buffered-Fits p ch s))

  pub take-IsSound : IsSound (set_buffered p ch rest)
  take-IsSound = set-IsSound p ch rest s take-Fits.0

undeleted : (h j : Bytes) (i : ℕ) (m : Map ℕ) → lookup j (delete h m) ≡ some i → lookup j m ≡ some i
undeleted h j i m e = ground (arith, lookup-delete h j m)

pub delete-IsSound :
    (h : Bytes) (p : ConnPool) → IsSound p → IsSound (record p { idle_conn = delete h p.idle_conn })
delete-IsSound h p s = record {
  mux_kind = s.mux_kind;
  mux_room = s.mux_room;
  sites = s.sites;
  mapped = λ j i e. s.mapped j i (undeleted h j i p.idle_conn e);
}
