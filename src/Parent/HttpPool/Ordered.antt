-- ===== src/Parent/HttpPool/Ordered.antt =====
-- parent_proxy.go: the order of the available nodes is kept.
use cow.Base.{
  ℕ, zero, suc, ◌≤◌, ◌≡◌, refl, sym, ap, subst, inl, inr, Bool, true, false, not, List, [], ◌∷◌,
  arith, ◌==◌, Bool-cases, Option-cases, get_elem?, set, keep, All,
}
use cow.Parent.HttpPool.{
  HttpParentNode, HttpParentPool, ProbeResult, latency_of, set_node, put_result, node_latency,
  mark_unavailable, dial_nodes, dial_snapshot, connect, size,
}
use cow.Parent.HttpPool.Fastest.{Sorted, IsOrdered, refreshed-IsOrdered}

get_elem-set :
    (nodes : List HttpParentNode) (i j : ℕ) (v : HttpParentNode)
    → (j == i) ≡ false
    → get_elem? (set nodes i v) j ≡ get_elem? nodes j
get_elem-set [] i j v e = refl
get_elem-set (x ∷ nodes) zero zero v e = absurd (cc e)
get_elem-set (x ∷ nodes) zero (suc j) v e = refl
get_elem-set (x ∷ nodes) (suc i) zero v e = refl
get_elem-set (x ∷ nodes) (suc i) (suc j) v e = get_elem-set nodes i j v (ground arith)

-- Writing to a node leaves the latencies of the others.
latency_of-set_node :
    (i latency : ℕ) (available : Bool) (nodes : List HttpParentNode) (j : ℕ)
    → (j == i) ≡ false
    → latency_of (set_node i latency available nodes) j ≡ latency_of nodes j
unfolding latency_of set_node put_result
latency_of-set_node i latency available nodes j e = elim (Option-cases (get_elem? nodes i)) [
  | inl n ↦ rw (n, put_result) refl
  | inr (node, n) ↦
      rw (n, put_result)
        (ap node_latency
          (get_elem-set nodes i j (record node { latency = latency; available = available }) e))
]

module _ (key key' : ℕ → ℕ) (p : ℕ → Bool) (same : (z : ℕ) → p z ≡ true → key' z ≡ key z) where
  keep-above : (n : ℕ) (l : List ℕ) → All (λ y. n ≤ key y) l → All (λ y. n ≤ key' y) (keep p l)
  keep-above n [] a = tt
  keep-above n (z ∷ l) (q, a) = elim (Bool-cases (p z)) [
    | inl e ↦ rw e (subst (λ k. n ≤ k) (sym (same z e)) q, keep-above n l a)
    | inr e ↦ rw e (keep-above n l a)
  ]

  Sorted-keep : (l : List ℕ) → Sorted key l → Sorted key' (keep p l)
  unfolding Sorted
  Sorted-keep [] s = tt
  Sorted-keep (z ∷ l) (a, s) = elim (Bool-cases (p z)) [
    | inl e ↦ rw e (
      subst (λ n. All (λ y. n ≤ key' y) (keep p l)) (sym (same z e)) (keep-above (key z) l a),
      Sorted-keep l s,
    )
    | inr e ↦ rw e (Sorted-keep l s)
  ]

is_false : (b : Bool) → not b ≡ true → b ≡ false
is_false true e = sym e
is_false false e = refl

mark_unavailable-IsOrdered :
    (node : ℕ) (pp : HttpParentPool) → IsOrdered pp → IsOrdered (mark_unavailable node pp)
unfolding IsOrdered mark_unavailable
mark_unavailable-IsOrdered node pp o =
    Sorted-keep (latency_of pp.nodes) _ (λ z. not (z == node))
      (λ z e. latency_of-set_node node _ false pp.nodes z (is_false (z == node) e)) pp.available o

dial_nodes-IsOrdered :
    (dial : ℕ → Bool) (nodes : List ℕ) (pp : HttpParentPool)
    → IsOrdered pp
    → IsOrdered ((dial_nodes dial nodes pp).1)
unfolding dial_nodes
dial_nodes-IsOrdered dial [] pp o = o
dial_nodes-IsOrdered dial (x ∷ xs) pp o = elim (Bool-cases (dial x)) [
  | inl e ↦ rw e o
  | inr e ↦
      rw e
        (dial_nodes-IsOrdered dial xs (mark_unavailable x pp) (mark_unavailable-IsOrdered x pp o))
]

dial_snapshot-IsOrdered :
    (dial : ℕ → Bool) (nodes : List ℕ) (pp : HttpParentPool)
    → IsOrdered pp
    → IsOrdered ((dial_snapshot dial nodes pp).1)
unfolding dial_snapshot
dial_snapshot-IsOrdered dial [] pp o = o
dial_snapshot-IsOrdered dial (x ∷ xs) pp o = dial_nodes-IsOrdered dial (x ∷ xs) pp o

-- `connect` keeps the available nodes in the order of their latencies, whatever the probes and
-- the dialling give, and whichever nodes it marks on its way.
pub connect-IsOrdered :
    (results : List ProbeResult) (dial : ℕ → Bool) (pp : HttpParentPool)
    → IsOrdered pp
    → IsOrdered ((connect results dial pp).1)
unfolding connect
connect-IsOrdered results dial pp o = elim (Bool-cases (size pp == 0)) [
  | inl e ↦ rw e o
  | inr e ↦ rw e (dial_snapshot-IsOrdered dial _ _ (refreshed-IsOrdered results pp.available pp o))
]
