-- ===== src/Site/Visit/Learn.antt =====
-- sitestat.go: what COW learns from visits.
use cow.Base.{ℕ, ◌+◌, ◌≤◌, ◌<◌, min, ◌≡◌, refl, ◌≢◌, true, false, List, [], ◌∷◌, arith, length}
use cow.Site.Visit.{
  VisitCnt, direct_visit, blocked_visit, user_specified, increase, as_direct, as_blocked, max_cnt,
  as_temp_blocked,
}

-- The given times of visits, the latest first, with the network in order.
abbrev pub blocked_visits : List ℕ → VisitCnt → VisitCnt
blocked_visits [] vc = vc
blocked_visits (now ∷ ts) vc = blocked_visit false now (blocked_visits ts vc)

increase-min : (c : ℕ) → c ≤ max_cnt → increase c ≡ min (c + 1) max_cnt
unfolding increase
increase-min c h = ground arith

blocked_visit-counts :
    (now : ℕ) (vc : VisitCnt)
    → user_specified vc ≡ false
    → vc.blocked ≤ max_cnt
    → ((blocked_visit false now vc).blocked ≡ min (vc.blocked + 1) max_cnt)
      × ((blocked_visit false now vc).direct ≡ 0)
unfolding blocked_visit
blocked_visit-counts now vc u h = rw u (increase-min vc.blocked h, refl)

counted_not_user :
    (vc : VisitCnt) → vc.blocked ≤ max_cnt → vc.direct ≤ max_cnt → user_specified vc ≡ false
unfolding user_specified
counted_not_user vc b d = ground arith

-- Every visit through a parent proxy counts, up to 100, and the first forgets the direct visits.
blocked_visits-counts :
    (now : ℕ) (ts : List ℕ) (vc : VisitCnt)
    → user_specified vc ≡ false
    → vc.blocked ≤ max_cnt
    → ((blocked_visits (now ∷ ts) vc).blocked ≡ min (vc.blocked + length (now ∷ ts)) max_cnt)
      × ((blocked_visits (now ∷ ts) vc).direct ≡ 0)
blocked_visits-counts now [] vc u h = blocked_visit-counts now vc u h
blocked_visits-counts now (t ∷ ts) vc u h =
    let prev = blocked_visits (t ∷ ts) vc in
    let (b, d) = blocked_visits-counts t ts vc u h in
    let (b', d') =
      blocked_visit-counts now prev (counted_not_user prev (omega arith) (omega arith))
        (omega arith) in
    (omega arith, d')

as_direct_no :
    (vc : VisitCnt) → vc.direct ≡ 0 → 0 < vc.blocked → vc.blocked ≤ max_cnt → as_direct vc ≡ false
unfolding as_direct
as_direct_no vc d lo hi = ground arith

as_blocked_yes :
    (now draw : ℕ) (vc : VisitCnt)
    → vc.direct ≡ 0
    → 4 < vc.blocked
    → vc.blocked ≤ max_cnt
    → draw ≢ 0
    → as_blocked now draw vc ≡ true
unfolding as_blocked
as_blocked_yes now draw vc d lo hi r = ground arith

module _ (now : ℕ) (ts : List ℕ) (vc : VisitCnt) (u : user_specified vc ≡ false)
    (h : vc.blocked ≤ max_cnt) where
  -- One visit through a parent proxy or more, on a site that the user did not list: the site is
  -- not direct any more, whatever its direct visits were, and its block count has grown by the
  -- number of visits, to at most 100.
  pub blocked_visits-learn :
      (as_direct (blocked_visits (now ∷ ts) vc) ≡ false)
      × ((blocked_visits (now ∷ ts) vc).blocked ≡ min (vc.blocked + length (now ∷ ts)) max_cnt)
      × ((blocked_visits (now ∷ ts) vc).direct ≡ 0)
  blocked_visits-learn =
      let (b, d) = blocked_visits-counts now ts vc u h in
      (as_direct_no (blocked_visits (now ∷ ts) vc) d (omega arith) (omega arith), b, d)

  -- After five such visits the site is taken as blocked at any time, but for the draw of 0 that
  -- tries it directly.
  pub blocked_visits-as_blocked :
      (later draw : ℕ)
      → 4 ≤ length ts
      → draw ≢ 0
      → as_blocked later draw (blocked_visits (now ∷ ts) vc) ≡ true
  blocked_visits-as_blocked later draw n r =
      let (b, d) = blocked_visits-counts now ts vc u h in
      as_blocked_yes later draw (blocked_visits (now ∷ ts) vc) d (omega arith) (omega arith) r

-- One direct visit undoes any number of blocked ones: the site is direct again, and it is taken
-- as blocked only while a temporary block lasts.
pub direct_visit-learn :
    (now later draw : ℕ) (vc : VisitCnt)
    → user_specified vc ≡ false
    → vc.direct ≤ max_cnt
    → (as_direct (direct_visit false now vc) ≡ true)
      × (as_blocked later draw (direct_visit false now vc) ≡ as_temp_blocked later vc)
unfolding direct_visit as_direct as_blocked as_temp_blocked
direct_visit-learn now later draw vc u h = (ground arith, ground arith)
