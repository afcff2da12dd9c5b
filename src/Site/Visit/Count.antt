-- ===== src/Site/Visit/Count.antt =====
-- sitestat.go: the range of the counts.
use cow.Base.{ℕ, ◌≤◌, ◌≡◌, refl, ◌⊎◌, inl, inr, Bool, arith}
use cow.Site.Visit.{
  VisitCnt, direct_visit, blocked_visit, temp_blocked, new_visit_cnt, max_cnt, user_cnt,
}

-- The count of a listed site, which is never visited into another.
abbrev pub IsListed : VisitCnt → Type 0
IsListed vc =
    ((vc.direct ≡ user_cnt) × (vc.blocked ≡ 0)) ⊎ ((vc.direct ≡ 0) × (vc.blocked ≡ user_cnt))

-- Listed, or counted: within 0 to 100, and never visits of both kinds.
abbrev pub IsCounted : VisitCnt → Type 0
IsCounted vc =
    IsListed vc
    ⊎ ((vc.direct ≤ max_cnt) × (vc.blocked ≤ max_cnt) × ((vc.direct ≡ 0) ⊎ (vc.blocked ≡ 0)))

pub new_visit_cnt-IsCounted : (now : ℕ) → IsCounted (new_visit_cnt now 0 0)
unfolding new_visit_cnt
new_visit_cnt-IsCounted now = inr (omega arith, omega arith, inl refl)

-- Visits of either kind and a temporary block, at any time and on any network, keep the count of
-- a listed site one of -1 and 0, and any other within 0 to 100 with at most one of its two
-- numbers above 0.
pub visit-IsCounted :
    (network_bad : Bool) (now : ℕ) (vc : VisitCnt)
    → IsCounted vc
    → IsCounted (direct_visit network_bad now vc)
      × IsCounted (blocked_visit network_bad now vc)
      × IsCounted (temp_blocked now vc)
unfolding direct_visit blocked_visit temp_blocked
visit-IsCounted network_bad now vc h = (ground arith, ground arith, h)
