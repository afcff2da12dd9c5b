-- ===== src/Parent/InOrder.antt =====
-- parent_proxy.go: `connectInOrder`, which the backup and the hash pool use. A parent is its
-- index; `fails` holds the field `fail` of each. Which parents are HTTP ones, what connecting to a
-- parent or through `parentHTTPPool` gives, the network's state and the random draws are
-- arguments; no parent, and the pool, is asked twice.
pub mod Rounds
pub mod Exhaust
use cow.Base.{
  ℕ, zero, suc, ◌+◌, ◌%◌, Bool, true, false, not, ◌&&◌, Option, none, some, List, [], ◌∷◌, ◌++◌,
  ltb, ◌==◌, if◌then◌else◌, length, get_elem?, set,
}
use cow.Proxy.Connect.{Dialled, dialled, dial_error}

abbrev pub max_fail_cnt : ℕ
max_fail_cnt = 30

abbrev pub base_fail_cnt : ℕ
base_fail_cnt = 9

-- The variables of the loops: `last` is `err`.
pub record Search (Err : Type 0) : Type 0 where
  pub fails : List ℕ
  pub skipped : List ℕ
  pub tried_http : Bool
  pub last : Option Err

-- `index_panic` is an index out of range.
pub data Step (Conn Err : Type 0) : Type 0 where
  found : Conn → List ℕ → Step Conn Err
  next : Search Err → Step Conn Err
  index_panic : Step Conn Err

-- `failed` holds the error that is returned, `none` being nil.
pub data Outcome (Conn Err : Type 0) : Type 0 where
  connection : Conn → List ℕ → Outcome Conn Err
  no_parent : Outcome Conn Err
  failed : Option Err → List ℕ → Outcome Conn Err
  panicked : Outcome Conn Err

-- `(start + i) % nproxy`, `count` times from `i` on.
unfoldable pub proxy_ids : ℕ → ℕ → ℕ → ℕ → List ℕ
proxy_ids start nproxy i zero = []
proxy_ids start nproxy i (suc count) = ((start + i) % nproxy) ∷ proxy_ids start nproxy (i + 1) count

module _ {Conn Err : Type 0} where
  -- The counter of a parent after an attempt.
  unfoldable pub fail_after : Bool → Dialled Conn Err → ℕ → ℕ
  fail_after network_bad (dialled s) fail = 0
  fail_after network_bad (dial_error e) fail =
      if ltb fail max_fail_cnt && not network_bad then fail + 1 else fail

  abbrev pub on_next : Step Conn Err → (Search Err → Step Conn Err) → Step Conn Err
  on_next (found s fails) f = found s fails
  on_next (next st) f = f st
  on_next index_panic f = index_panic

  -- One round after the other, until one ends the search.
  unfoldable pub run : (ℕ → Search Err → Step Conn Err) → List ℕ → Search Err → Step Conn Err
  run visit [] st = next st
  run visit (id ∷ ids) st = on_next (visit id st) (λ st'. run visit ids st')

  outcome : Step Conn Err → Outcome Conn Err
  outcome (found s fails) = connection s fails
  outcome (next st) = failed st.last st.fails
  outcome index_panic = panicked

  module _ (network_bad : Bool) (is_http : ℕ → Bool) (http : Dialled Conn Err)
      (dial : ℕ → Dialled Conn Err) (draw : ℕ → ℕ → ℕ) where
    with_result : ℕ → ℕ → Search Err → Dialled Conn Err → Step Conn Err
    unfolding fail_after
    with_result id fail st (dialled s) =
        found s (set st.fails id (fail_after network_bad (dialled s) fail))
    with_result id fail st (dial_error e) = next (record st {
      fails = set st.fails id (fail_after network_bad (dial_error e) fail);
      last = some e;
    })

    -- `connect` of the parent, and what the loops make of it.
    try_parent : ℕ → ℕ → Search Err → Step Conn Err
    unfolding with_result
    try_parent id fail st = with_result id fail st (dial id)

    http_result : Search Err → Dialled Conn Err → Step Conn Err
    http_result st (dialled s) = found s st.fails
    http_result st (dial_error e) = next (record st { tried_http = true; last = some e })

    -- The pool of HTTP parents is asked once, for all of them.
    try_untried : Bool → Search Err → Step Conn Err
    unfolding http_result
    try_untried true st = next st
    try_untried false st = http_result st http

    try_http : Search Err → Step Conn Err
    unfolding try_untried
    try_http st = try_untried st.tried_http st

    -- A parent that failed is skipped at random.
    try_or_skip : ℕ → Search Err → Option ℕ → Step Conn Err
    unfolding try_parent
    try_or_skip id st none = index_panic
    try_or_skip id st (some fail) =
        if ltb 0 fail && not (draw id (fail + base_fail_cnt) == 0)
        then next (record st { skipped = st.skipped ++ id ∷ [] })
        else try_parent id fail st

    visit_parent : ℕ → Search Err → Step Conn Err
    unfolding try_http try_or_skip
    visit_parent id st =
        if is_http id then try_http st else try_or_skip id st (get_elem? st.fails id)

    retry : ℕ → Search Err → Option ℕ → Step Conn Err
    unfolding try_parent
    retry id st none = index_panic
    retry id st (some fail) = try_parent id fail st

    -- The last resort.
    visit_skipped : ℕ → Search Err → Step Conn Err
    unfolding retry
    visit_skipped id st = retry id st (get_elem? st.fails id)

    last_resort : Step Conn Err → Step Conn Err
    unfolding run visit_skipped
    last_resort r = on_next r (λ st. run visit_skipped st.skipped st)

    begin : List ℕ → Search Err
    begin fails = record { fails = fails; skipped = []; tried_http = false; last = none }

    unfoldable pub connect_in_order : List ℕ → ℕ → Outcome Conn Err
    unfolding run visit_parent last_resort outcome begin proxy_ids
    connect_in_order fails start =
        if length fails == 0
        then no_parent
        else outcome (
            last_resort
              (run visit_parent (proxy_ids start (length fails) 0 (length fails)) (begin fails)))
