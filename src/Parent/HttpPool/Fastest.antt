-- ===== src/Parent/HttpPool/Fastest.antt =====
-- parent_proxy.go: which parent `httpParentPool.connect` picks.
use cow.Base.{
  ℕ, ◌≤◌, ◌≡◌, refl, ◌⊎◌, inl, inr, Bool, true, false, not, ◌||◌, List, [], ◌∷◌, arith, ltb, ◌==◌,
  ==_iff, ==_refl, Bool-cases, length, any, keep, All, All-mono,
}
use cow.Parent.HttpPool.{
  HttpParentNode, HttpParentPool, ProbeResult, latency_of, take_results, insert_by, sort_stable,
  sorted_pool, update_available, mark_unavailable, Outcome, connected, no_parent, none_available,
  all_failed, dial_nodes, dial_snapshot, refreshed, connect, size,
}

unfoldable pub Sorted : (ℕ → ℕ) → List ℕ → Type 0
Sorted key [] = Unit
Sorted key (x ∷ xs) = All (λ y. key x ≤ key y) xs × Sorted key xs

insert_by-All :
    (P : ℕ → Type 0) (key : ℕ → ℕ) (x : ℕ) (ys : List ℕ)
    → P x
    → All P ys
    → All P (insert_by key x ys)
unfolding insert_by
insert_by-All P key x [] p a = (p, tt)
insert_by-All P key x (y ∷ ys) p (q, a) = elim (Bool-cases (ltb (key y) (key x))) [
  | inl e ↦ rw e (q, insert_by-All P key x ys p a)
  | inr e ↦ rw e (p, (q, a))
]

Sorted-insert_by :
    (key : ℕ → ℕ) (x : ℕ) (ys : List ℕ) → Sorted key ys → Sorted key (insert_by key x ys)
unfolding Sorted insert_by
Sorted-insert_by key x [] s = (tt, tt)
Sorted-insert_by key x (y ∷ ys) (a, s) = elim (Bool-cases (ltb (key y) (key x))) [
  | inl e ↦
      rw e
        (insert_by-All (λ z. key y ≤ key z) key x ys (ground arith) a, Sorted-insert_by key x ys s)
  | inr e ↦
      let least : key x ≤ key y = ground arith in
      rw e ((least, All-mono _ _ (λ z q. omega (arith, q, least)) ys a), (a, s))
]

Sorted-sort_stable : (key : ℕ → ℕ) (xs : List ℕ) → Sorted key (sort_stable key xs)
unfolding Sorted sort_stable
Sorted-sort_stable key [] = tt
Sorted-sort_stable key (x ∷ xs) =
    Sorted-insert_by key x (sort_stable key xs) (Sorted-sort_stable key xs)

-- The available nodes stand in the order of their latencies.
unfoldable pub IsOrdered : HttpParentPool → Type 0
IsOrdered pp = Sorted (latency_of pp.nodes) pp.available

sorted_pool-IsOrdered : (q : List HttpParentNode × List ℕ) → IsOrdered (sorted_pool q)
unfolding IsOrdered sorted_pool
sorted_pool-IsOrdered (nodes, available) = Sorted-sort_stable (latency_of nodes) available

pub refreshed-IsOrdered :
    (results : List ProbeResult) (l : List ℕ) (pp : HttpParentPool)
    → IsOrdered pp
    → IsOrdered (refreshed results l pp)
unfolding refreshed update_available
refreshed-IsOrdered results (node ∷ l) pp o = o
refreshed-IsOrdered results [] pp o = elim (Bool-cases (length pp.nodes == 0)) [
  | inl e ↦ rw e o
  | inr e ↦ rw e (sorted_pool-IsOrdered (take_results results pp.nodes))
]

unfoldable pub has : ℕ → List ℕ → Bool
has z l = any (λ y. y == z) l

or_later : (b : Bool) {r : Bool} → r ≡ true → (b || r) ≡ true
or_later true p = refl
or_later false p = p

-- What is known of the pick among the nodes: it is one of them, and no other one that answers has a lower latency; where
-- none is picked, none answers, and none is left in the list, so that the next call probes again.
pub Picks : (ℕ → ℕ) → (ℕ → Bool) → List ℕ → Outcome × HttpParentPool → Type 0
Picks key dial nodes (connected node, pp) =
    (dial node ≡ true)
    × (has node nodes ≡ true)
    × All (λ other. (dial other ≡ false) ⊎ (key node ≤ key other)) nodes
Picks key dial nodes (all_failed, pp) =
    All (λ other. dial other ≡ false) nodes × (pp.available ≡ [])
Picks key dial nodes (none_available, pp) = ⊥
Picks key dial nodes (no_parent, pp) = ⊥

nothing_left : (l : List ℕ) → All (λ z. has z [] ≡ true) l → l ≡ []
unfolding has
nothing_left [] a = refl
nothing_left (x ∷ l) (p, a) = absurd (cc p)

flip : (z x : ℕ) → (z == x) ≡ false → (x == z) ≡ false
flip z x e = ground arith

among : (b : Bool) {r : Bool} → (b || r) ≡ true → b ≡ false → r ≡ true
among true p e = absurd (cc e)
among false p e = p

-- Without a node, the others are still among the rest.
without-All :
    (x : ℕ) (xs l : List ℕ)
    → All (λ z. has z (x ∷ xs) ≡ true) l
    → All (λ z. has z xs ≡ true) (keep (λ z. not (z == x)) l)
unfolding has
without-All x xs [] a = tt
without-All x xs (z ∷ l) (p, a) = elim (Bool-cases (z == x)) [
  | inl e ↦ rw e (without-All x xs l a)
  | inr e ↦ rw e (among (x == z) p (flip z x e), without-All x xs l a)
]

first_picked :
    (key : ℕ → ℕ) (dial : ℕ → Bool) (x : ℕ) (xs : List ℕ) (out : Outcome × HttpParentPool)
    → dial x ≡ false
    → Picks key dial xs out
    → Picks key dial (x ∷ xs) out
unfolding Picks has
first_picked key dial x xs (connected node, pp) e (p, i, a) =
    (p, or_later (x == node) i, (inl e, a))
first_picked key dial x xs (all_failed, pp) e (a, l) = ((e, a), l)
first_picked key dial x xs (none_available, pp) e p = p
first_picked key dial x xs (no_parent, pp) e p = p

dial_nodes-Picks :
    (key : ℕ → ℕ) (dial : ℕ → Bool) (nodes : List ℕ) (pp : HttpParentPool)
    → Sorted key nodes
    → All (λ z. has z nodes ≡ true) pp.available
    → Picks key dial nodes (dial_nodes dial nodes pp)
unfolding Picks dial_nodes Sorted mark_unavailable has
dial_nodes-Picks key dial [] pp s a = (tt, nothing_left pp.available a)
dial_nodes-Picks key dial (x ∷ xs) pp (l, s) a = elim (Bool-cases (dial x)) [
  | inl e ↦ rw e (e, rw (==_refl x) refl, (inr (omega arith), All-mono _ _ (λ z q. inr q) xs l))
  | inr e ↦ rw e (
      first_picked key dial x xs _ e
        (dial_nodes-Picks key dial xs (mark_unavailable x pp) s (without-All x xs pp.available a)))
]

dial_snapshot-Picks :
    (key : ℕ → ℕ) (dial : ℕ → Bool) (nodes : List ℕ) (pp : HttpParentPool)
    → nodes ≡ pp.available
    → Sorted key nodes
    → All (λ z. has z nodes ≡ true) pp.available
    → ((nodes ≡ []) × (dial_snapshot dial nodes pp ≡ (none_available, pp)))
      ⊎ Picks key dial nodes (dial_snapshot dial nodes pp)
unfolding dial_snapshot
dial_snapshot-Picks key dial [] pp e s a = inl (refl, refl)
dial_snapshot-Picks key dial (x ∷ xs) pp e s a = inr (dial_nodes-Picks key dial (x ∷ xs) pp s a)

All-has : (xs : List ℕ) → All (λ z. has z xs ≡ true) xs
unfolding has
All-has [] = tt
All-has (x ∷ xs) = (rw (==_refl x) refl, All-mono _ _ (λ z p. or_later (x == z) p) xs (All-has xs))

-- In a pool whose list is in order, `connect` finds no parent, or no available one even after it
-- probed them, or it returns the connection of an available node that answers and than which no
-- other one that answers was faster at the last probe; if none answers, all are marked, so that
-- the next call probes again. The list that it used is in order as well.
pub connect-Picks :
    (results : List ProbeResult) (dial : ℕ → Bool) (pp : HttpParentPool)
    → IsOrdered pp
    → let used = refreshed results pp.available pp in
      IsOrdered used
      × (((size pp ≡ 0) × (connect results dial pp ≡ (no_parent, pp)))
          ⊎ (((used.available ≡ []) × (connect results dial pp ≡ (none_available, used)))
              ⊎ Picks (latency_of used.nodes) dial used.available (connect results dial pp)))
unfolding connect IsOrdered
connect-Picks results dial pp o =
    let used = refreshed results pp.available pp in
    let ordered = refreshed-IsOrdered results pp.available pp o in
    (
      ordered,
      elim (Bool-cases (size pp == 0)) [
        | inl e ↦ inl ((==_iff (size pp) 0).0 e, rw e refl)
        | inr e ↦ inr (
            rw e (
              dial_snapshot-Picks (latency_of used.nodes) dial used.available used refl ordered
                (All-has used.available)))
      ],
    )
