-- ===== src/Site/Stat/Filter.antt =====
-- sitestat.go: what `filterSites` removes.
use cow.Base.{
  ℕ, ◌-◌, ◌*◌, ◌^◌, ◌<◌, ◌≡◌, refl, sym, ap, subst, ◌∙◌, ◌≢◌, ◌⊎◌, inl, inr, Bool, true, false,
  Option, none, some, List, [], ◌∷◌, arith, ltb, ◌==◌, if◌then◌else◌, ==_iff, Bool-cases,
  eq_of_some, any, Bytes, bytes_eq, bytes_eq_refl, eq_of_bytes_eq, Map, lookup, delete,
  lookup-delete, Distinct,
}
use cow.Util.Host.{host2domain}
use cow.Site.Visit.{VisitCnt, user_specified, is_stale, site_stale_threshold}
use cow.Site.Stat.{SiteStat, should_remove, remove_sites, delete_all, filter_sites, listed_domain}

lookup-delete_all :
    (j : Bytes) (sites : List Bytes) (m : Map VisitCnt)
    → lookup j (delete_all sites m) ≡ (if any (λ s. bytes_eq s j) sites then none else lookup j m)
unfolding delete_all
lookup-delete_all j [] m = refl
lookup-delete_all j (s ∷ sites) m =
    lookup-delete_all j sites (delete s m) ∙ ground (arith, lookup-delete s j m)

abbrev pub removes : ℕ → SiteStat → Bytes → Option VisitCnt → Bool
removes now ss j none = false
removes now ss j (some vc) = should_remove now ss j vc

-- The walk over the entries finds a site exactly if its count is to go.
any-remove_sites :
    (now : ℕ) (ss : SiteStat) (j : Bytes) (m : Map VisitCnt)
    → Distinct m
    → any (λ s. bytes_eq s j) (remove_sites now ss m) ≡ removes now ss j (lookup j m)
unfolding remove_sites lookup
any-remove_sites now ss j [] d = refl
any-remove_sites now ss j ((s, vc) ∷ m) d = elim (Bool-cases (bytes_eq s j)) [
  | inl e ↦
      ground
        (arith, eq_of_bytes_eq s j e, any-remove_sites now ss j m d.1, ap (removes now ss s) d.0)
  | inr n ↦ rw n (ground (arith, any-remove_sites now ss j m d.1))
]

abbrev pub unless : Bool → Option VisitCnt → Option VisitCnt
unless b o = if b then none else o

pub lookup-filter_sites-unless :
    (now : ℕ) (ss : SiteStat) (j : Bytes)
    → Distinct ss.vcnt
    → lookup j (filter_sites now ss).vcnt
      ≡ unless (removes now ss j (lookup j ss.vcnt)) (lookup j ss.vcnt)
unfolding filter_sites
lookup-filter_sites-unless now ss j d =
    lookup-delete_all j (remove_sites now ss ss.vcnt) ss.vcnt
    ∙ ap (λ b. unless b (lookup j ss.vcnt)) (any-remove_sites now ss j ss.vcnt d)

-- A count of -1 is one that the user set.
abbrev pub IsUserSet : VisitCnt → Type 0
IsUserSet vc = (vc.blocked ≡ 255) ⊎ (vc.direct ≡ 255)

user_specified-IsUserSet : (vc : VisitCnt) → user_specified vc ≡ true → IsUserSet vc
unfolding user_specified
user_specified-IsUserSet vc e = elim (Bool-cases (vc.blocked == 255)) [
  | inl y ↦ inl ((==_iff vc.blocked 255).0 y)
  | inr n ↦ inr ((==_iff vc.direct 255).0 (rw n at e))
]

not_IsUserSet : (vc : VisitCnt) → user_specified vc ≡ false → ¬ IsUserSet vc
unfolding user_specified
not_IsUserSet vc e (inl b) = ground arith
not_IsUserSet vc e (inr d) = ground arith

-- The count of a site is not the user's, and is older than ten days (in nanoseconds), or the site has a domain
-- other than itself with a count that the user set.
pub data Removable (now : ℕ) (ss : SiteStat) (site : Bytes) (vc : VisitCnt) : Type 0 where
  stale : (¬ IsUserSet vc) → 10 * 24 * 3600 * 10 ^ 9 < now - vc.recent → Removable now ss site vc
  covered :
      (¬ IsUserSet vc)
      → host2domain site ≢ site
      → (dc : VisitCnt) → lookup (host2domain site) ss.vcnt ≡ some dc
      → IsUserSet dc
      → Removable now ss site vc

-- What becomes of the entry of a site.
unfoldable pub IsFiltered : ℕ → SiteStat → Bytes → Option VisitCnt → Option VisitCnt → Type 0
IsFiltered now ss site none after = after ≡ none
IsFiltered now ss site (some vc) after =
    (Removable now ss site vc × (after ≡ none)) ⊎ ((¬ Removable now ss site vc) × (after ≡ some vc))

listed_IsUserSet :
    (o : Option VisitCnt) → listed_domain o ≡ true → (dc : VisitCnt) × (o ≡ some dc) × IsUserSet dc
unfolding listed_domain
listed_IsUserSet none e = absurd (cc e)
listed_IsUserSet (some dc) e = (dc, refl, user_specified-IsUserSet dc e)

not_listed :
    (o : Option VisitCnt) (dc : VisitCnt) → listed_domain o ≡ false → o ≡ some dc → ¬ IsUserSet dc
unfolding listed_domain
not_listed none dc e f u = absurd (cc f)
not_listed (some vc) dc e f u = not_IsUserSet dc (ap user_specified (sym (eq_of_some f)) ∙ e) u

should_remove-Removable :
    (now : ℕ) (ss : SiteStat) (site : Bytes) (vc : VisitCnt)
    → should_remove now ss site vc ≡ true
    → Removable now ss site vc
unfolding should_remove is_stale cow.Site.Stat.get
should_remove-Removable now ss site vc e = elim (Bool-cases (user_specified vc)) [
  | inl u ↦ absurd (cc (rw (u, should_remove) at e))
  | inr u ↦ elim (Bool-cases (ltb site_stale_threshold (now - vc.recent))) [
    | inl s ↦ stale (not_IsUserSet vc u) (ground arith)
    | inr s ↦ elim (Bool-cases (bytes_eq (host2domain site) site)) [
      | inl b ↦ absurd (cc (rw (u, s, b, should_remove) at e))
      | inr b ↦
          let (dc, f, g) =
            listed_IsUserSet (lookup (host2domain site) ss.vcnt)
              (rw (u, s, b, should_remove) at e) in
          covered (not_IsUserSet vc u)
            (λ q. absurd (cc (bytes_eq_refl site, b, ap (λ k. bytes_eq k site) q))) dc f g
    ]
  ]
]

should_remove_not :
    (now : ℕ) (ss : SiteStat) (site : Bytes) (vc : VisitCnt)
    → should_remove now ss site vc ≡ false
    → ¬ Removable now ss site vc
unfolding should_remove is_stale cow.Site.Stat.get
should_remove_not now ss site vc e r = elim (Bool-cases (user_specified vc)) [
  | inl u ↦ elim r [
    | stale n s ↦ n (user_specified-IsUserSet vc u)
    | covered n q dc f g ↦ n (user_specified-IsUserSet vc u)
  ]
  | inr u ↦ elim (Bool-cases (ltb site_stale_threshold (now - vc.recent))) [
    | inl s ↦ absurd (cc (rw (u, s, should_remove) at e))
    | inr s ↦ elim r [
      | stale n t ↦ absurd (ground arith)
      | covered n q dc f g ↦ elim (Bool-cases (bytes_eq (host2domain site) site)) [
        | inl b ↦ q (eq_of_bytes_eq (host2domain site) site b)
        | inr b ↦
            not_listed (lookup (host2domain site) ss.vcnt) dc (rw (u, s, b, should_remove) at e) f g
      ]
    ]
  ]
]

IsFiltered-unless :
    (now : ℕ) (ss : SiteStat) (site : Bytes) (o : Option VisitCnt)
    → IsFiltered now ss site o (unless (removes now ss site o) o)
unfolding IsFiltered
IsFiltered-unless now ss site none = refl
IsFiltered-unless now ss site (some vc) = elim (Bool-cases (should_remove now ss site vc)) [
  | inl y ↦ inl (should_remove-Removable now ss site vc y, rw y refl)
  | inr n ↦ inr (should_remove_not now ss site vc n, rw n refl)
]

-- `filterSites` removes exactly the counts that were not set by the user and are older than ten
-- days or belong to a host below a domain with a count set by the user; every other count stays
-- as it is, and none is added.
pub lookup-filter_sites :
    (now : ℕ) (ss : SiteStat) (j : Bytes)
    → Distinct ss.vcnt
    → IsFiltered now ss j (lookup j ss.vcnt) (lookup j (filter_sites now ss).vcnt)
lookup-filter_sites now ss j d =
    subst (IsFiltered now ss j (lookup j ss.vcnt)) (sym (lookup-filter_sites-unless now ss j d))
      (IsFiltered-unless now ss j (lookup j ss.vcnt))
