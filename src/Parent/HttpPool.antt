-- ===== src/Parent/HttpPool.antt =====
-- parent_proxy.go: `httpParentPool`. Nodes are only added, so a pointer to a node is its place in
-- `nodes`. A step runs alone; the results of the probes, in the order of the channel, and of the
-- dialling are arguments.
pub mod Fastest
pub mod Ordered
use cow.Base.{
  ℕ, zero, suc, ◌+◌, ◌-◌, ◌*◌, ◌/◌, ◌%◌, ◌^◌, ◌≤◌, ◌<◌, min, max, ◌≡◌, refl, sym, ap, ap₂, subst,
  ◌∙◌, ◌≢◌, ◌↔◌, ◌⊎◌, inl, inr, Bool, true, false, not, ◌&&◌, ◌||◌, Option, none, some, List, [],
  ◌∷◌, ◌++◌, map, arith, dec_lt, dec_le, ltb, leb, ◌==◌, if◌then◌else◌, ==_iff, ==_refl, Bool-cases,
  Option-cases, &&-eq-true, check_below, eq_of_some, check_below_sound, length, get_or, get_elem?,
  set, take, drop, replicate, length-append, take-append-drop, length-take, length-drop,
  take-append, drop-append, all, any, keep, length-keep-le, All, length-map, get_or-append,
  set-append, length-snoc, get_or-drop, get_or-take, take-take, drop-append_le, take-suc, drop_all,
  take_all, all-append, drop_at, take_at, List-cases, All-mono, Bytes, codes, IsByte, bytes_eq,
  bytes_eq_refl, eq_of_bytes_eq, index_byte, last_index, has_prefix, index, contains, onto_first,
  split, join, bytes_eq_sym, Map, lookup, insert, delete, lookup-insert, lookup-insert_self,
  lookup-delete, Distinct, insert-Distinct, lookup_head, lookup_tail, signed_lt, signed_ge,
  signed_sub, signed_neg, int8_half, int64_half, int64_mod,
}
use cow.Site.Visit.{second}

pub record HttpParentNode : Type 0 where
  pub parent : Bytes
  pub latency : ℕ
  pub available : Bool

pub record HttpParentPool : Type 0 where
  pub nodes : List HttpParentNode
  pub available : List ℕ

abbrev pub latency_max : ℕ
latency_max = 3600 * second

unfoldable pub new_http_parent_pool : HttpParentPool
new_http_parent_pool = record { nodes = []; available = [] }

unfoldable pub add : Bytes → HttpParentPool → HttpParentPool
add parent pp = record pp {
  nodes = pp.nodes ++ (record { parent = parent; latency = 0; available = false } ∷ []);
}

unfoldable pub size : HttpParentPool → ℕ
size pp = length pp.nodes

pub record ProbeResult : Type 0 where
  pub node : ℕ
  pub latency : ℕ
  pub failed : Bool

put_result : ℕ → Bool → Option HttpParentNode → ℕ → List HttpParentNode → List HttpParentNode
put_result latency available none i nodes = nodes
put_result latency available (some node) i nodes =
    set nodes i (record node { latency = latency; available = available })

-- Writes the latency and the state of the node at a place.
unfoldable pub set_node : ℕ → ℕ → Bool → List HttpParentNode → List HttpParentNode
unfolding put_result
set_node i latency available nodes = put_result latency available (get_elem? nodes i) i nodes

node_latency : Option HttpParentNode → ℕ
node_latency none = 0
node_latency (some node) = node.latency

unfoldable pub latency_of : List HttpParentNode → ℕ → ℕ
unfolding node_latency
latency_of nodes i = node_latency (get_elem? nodes i)

-- The loop over the results: the nodes, and those that are available.
unfoldable pub take_results : List ProbeResult → List HttpParentNode → List HttpParentNode × List ℕ
unfolding set_node
take_results [] nodes = (nodes, [])
take_results (res ∷ results) nodes =
    let (nodes', available) =
      take_results results (set_node res.node res.latency (not res.failed) nodes) in
    (nodes', if not res.failed then res.node ∷ available else available)

-- `sort.SliceStable` by a key.
unfoldable pub insert_by : (ℕ → ℕ) → ℕ → List ℕ → List ℕ
insert_by key x [] = x ∷ []
insert_by key x (y ∷ ys) =
    let rest = insert_by key x ys in if ltb (key y) (key x) then y ∷ rest else x ∷ y ∷ ys

unfoldable pub sort_stable : (ℕ → ℕ) → List ℕ → List ℕ
unfolding insert_by
sort_stable key [] = []
sort_stable key (x ∷ xs) = insert_by key x (sort_stable key xs)

sorted_pool : List HttpParentNode × List ℕ → HttpParentPool
unfolding sort_stable latency_of
sorted_pool (nodes, available) = record {
  nodes = nodes;
  available = sort_stable (latency_of nodes) available;
}

unfoldable pub update_available : List ProbeResult → HttpParentPool → HttpParentPool
unfolding sorted_pool take_results
update_available results pp =
    if length pp.nodes == 0 then pp else sorted_pool (take_results results pp.nodes)

unfoldable pub mark_unavailable : ℕ → HttpParentPool → HttpParentPool
unfolding set_node
mark_unavailable node pp = record {
  nodes = set_node node latency_max false pp.nodes;
  available = keep (λ candidate. not (candidate == node)) pp.available;
}

pub data Outcome : Type 0 where
  connected : ℕ → Outcome
  no_parent none_available all_failed : Outcome

-- The loop over the nodes; `dial` tells whether a node's parent made the connection.
unfoldable pub dial_nodes : (ℕ → Bool) → List ℕ → HttpParentPool → Outcome × HttpParentPool
unfolding mark_unavailable
dial_nodes dial [] pp = (all_failed, pp)
dial_nodes dial (node ∷ nodes) pp =
    let rest = dial_nodes dial nodes (mark_unavailable node pp) in
    if dial node then (connected node, pp) else rest

dial_snapshot : (ℕ → Bool) → List ℕ → HttpParentPool → Outcome × HttpParentPool
unfolding dial_nodes
dial_snapshot dial [] pp = (none_available, pp)
dial_snapshot dial (node ∷ nodes) pp = dial_nodes dial (node ∷ nodes) pp

-- The pool after the second look, where the first found nothing.
unfoldable pub refreshed : List ProbeResult → List ℕ → HttpParentPool → HttpParentPool
unfolding update_available
refreshed results [] pp = update_available results pp
refreshed results (node ∷ nodes) pp = pp

unfoldable pub connect : List ProbeResult → (ℕ → Bool) → HttpParentPool → Outcome × HttpParentPool
unfolding dial_snapshot refreshed
connect results dial pp =
    let pp' = refreshed results pp.available pp in
    if size pp == 0 then (no_parent, pp) else dial_snapshot dial pp'.available pp'
