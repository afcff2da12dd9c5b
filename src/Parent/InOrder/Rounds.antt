-- ===== src/Parent/InOrder/Rounds.antt =====
-- parent_proxy.go: the loops of `connectInOrder`, and the parents that they come to.
use cow.Base.{
  ℕ, zero, suc, ◌+◌, ◌-◌, ◌%◌, ◌<◌, ◌≡◌, refl, sym, ap, subst, ◌∙◌, ◌⊎◌, inl, inr, List, [], ◌∷◌,
  ◌++◌, arith, dec_le, All,
}
use native.Mathlib.Nat.{mod-eq_of_lt, add-mod_right}
use cow.Parent.InOrder.{Search, Step, on_next, found, next, index_panic, proxy_ids, run}

module _ {Conn Err : Type 0} where
  -- A search that goes on has gone on before.
  pub on_next-inv :
      (r : Step Conn Err) (f : Search Err → Step Conn Err) (st' : Search Err)
      → on_next r f ≡ next st'
      → (st : Search Err) × (r ≡ next st) × (f st ≡ next st')
  on_next-inv (found s fails) f st' e = absurd (cc e)
  on_next-inv (next st) f st' e = (st, refl, e)
  on_next-inv index_panic f st' e = absurd (cc e)

  pub next-inj : (st st' : Search Err) → ◌≡◌ {A = Step Conn Err} (next st) (next st') → st ≡ st'
  next-inj st st' e = cc e

  -- What every round keeps, a search that goes on to its end keeps.
  run-keeps :
      (visit : ℕ → Search Err → Step Conn Err) (P : Search Err → Type 0)
      → ((id : ℕ) (st st' : Search Err) → P st → visit id st ≡ next st' → P st')
      → (ids : List ℕ) (st st' : Search Err) → P st
      → run visit ids st ≡ next st'
      → P st'
  unfolding run
  run-keeps visit P k [] st st' p e = subst P (cc e) p
  run-keeps visit P k (id ∷ ids) st st' p e =
      let (t, f, g) = on_next-inv (visit id st) (λ u. run visit ids u) st' e in
      run-keeps visit P k ids t st' (k id st t p f) g

  -- What a round brings about and the later ones keep holds at the end for every index.
  pub run-All :
      (visit : ℕ → Search Err → Step Conn Err) (P : Search Err → Type 0)
      (Q : ℕ → Search Err → Type 0)
      → ((id : ℕ) (st st' : Search Err) → P st → visit id st ≡ next st' → P st' × Q id st')
      → ((j id : ℕ) (st st' : Search Err) → Q j st → visit id st ≡ next st' → Q j st')
      → (ids : List ℕ) (st st' : Search Err) → P st
      → run visit ids st ≡ next st'
      → All (λ id. Q id st') ids
  unfolding run
  run-All visit P Q m k [] st st' p e = tt
  run-All visit P Q m k (id ∷ ids) st st' p e =
      let (t, f, g) = on_next-inv (visit id st) (λ u. run visit ids u) st' e in
      let (p', q) = m id st t p f in
      (run-keeps visit (Q id) (k id) ids t st' q g, run-All visit P Q m k ids t st' p' g)

unfoldable pub IsIn : ℕ → List ℕ → Type 0
IsIn x [] = ⊥
IsIn x (y ∷ l) = (x ≡ y) ⊎ IsIn x l

pub IsIn-append : (x y : ℕ) (l : List ℕ) → IsIn x l → IsIn x (l ++ y ∷ [])
unfolding IsIn
IsIn-append x y [] h = elim h [ ]
IsIn-append x y (z ∷ l) (inl e) = inl e
IsIn-append x y (z ∷ l) (inr h) = inr (IsIn-append x y l h)

pub IsIn-snoc : (y : ℕ) (l : List ℕ) → IsIn y (l ++ y ∷ [])
unfolding IsIn
IsIn-snoc y [] = inl refl
IsIn-snoc y (z ∷ l) = inr (IsIn-snoc y l)

pub All-IsIn : (P : ℕ → Type 0) (x : ℕ) (l : List ℕ) → All P l → IsIn x l → P x
unfolding IsIn
All-IsIn P x [] a h = elim h [ ]
All-IsIn P x (y ∷ l) a (inl e) = subst P (sym e) a.0
All-IsIn P x (y ∷ l) a (inr h) = All-IsIn P x l a.1 h

proxy_ids-IsIn :
    (start nproxy k i count : ℕ)
    → k < count
    → IsIn ((start + (i + k)) % nproxy) (proxy_ids start nproxy i count)
unfolding IsIn proxy_ids
proxy_ids-IsIn start nproxy k i zero h = absurd (omega arith)
proxy_ids-IsIn start nproxy zero i (suc count) h =
    inl (ap (λ j. (start + j) % nproxy) (omega arith))
proxy_ids-IsIn start nproxy (suc k) i (suc count) h = inr (
    subst (λ j. IsIn ((start + j) % nproxy) (proxy_ids start nproxy (i + 1) count)) (omega arith)
      (proxy_ids-IsIn start nproxy k (i + 1) count (omega arith)))

-- The walk from any parent on comes to every parent.
pub proxy_ids-all :
    (start nproxy id : ℕ) → start < nproxy → id < nproxy → IsIn id (proxy_ids start nproxy 0 nproxy)
proxy_ids-all start nproxy id h k = elim (dec_le start id) [
  | yes l ↦
      subst (λ j. IsIn j (proxy_ids start nproxy 0 nproxy))
        (ap (λ j. j % nproxy) (omega arith) ∙ mod-eq_of_lt k)
        (proxy_ids-IsIn start nproxy (id - start) 0 nproxy (omega arith))
  | no l ↦
      subst (λ j. IsIn j (proxy_ids start nproxy 0 nproxy))
        (ap (λ j. j % nproxy) (omega arith) ∙ add-mod_right id nproxy ∙ mod-eq_of_lt k)
        (proxy_ids-IsIn start nproxy (id + nproxy - start) 0 nproxy (omega arith))
]
