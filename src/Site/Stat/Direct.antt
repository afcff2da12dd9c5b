-- ===== src/Site/Stat/Direct.antt =====
-- sitestat.go: what `GetDirectList` leaves out.
use cow.Base.{
  ap, lookup, ◌∙◌, ℕ, ◌≡◌, subst, inl, inr, true, false, some, [], ◌∷◌, arith, Bool-cases,
  Option-cases, eq_of_some, All, All-mono, Bytes, bytes_eq, eq_of_bytes_eq, Map, insert,
  lookup-insert_self,
}
use cow.Util.Host.{host2domain}
use cow.Url.{Url}
use cow.Site.Visit.{VisitCnt, as_direct, temp_blocked}
use cow.Site.Stat.{
  SiteStat, get, is_blocked_domain, mark_blocked_host, temp_blocked_site, direct_sites,
  get_direct_list,
}

abbrev pub IsClear : SiteStat → Bytes → Type 0
IsClear ss site = is_blocked_domain ss (host2domain site) ≡ false

direct_sites-IsClear : (ss : SiteStat) (m : Map VisitCnt) → All (IsClear ss) (direct_sites ss m)
unfolding direct_sites
direct_sites-IsClear ss [] = tt
direct_sites-IsClear ss ((site, vc) ∷ m) =
    elim (Bool-cases (is_blocked_domain ss (host2domain site))) [
      | inl e ↦ rw e (direct_sites-IsClear ss m)
      | inr e ↦ rw e (elim (Bool-cases (as_direct vc)) [
        | inl f ↦ rw f (e, direct_sites-IsClear ss m)
        | inr f ↦ rw f (direct_sites-IsClear ss m)
      ])
    ]

mark-is_blocked_domain :
    (d : Bytes) (ss : SiteStat) → is_blocked_domain (mark_blocked_host d ss) d ≡ true
unfolding mark_blocked_host is_blocked_domain
mark-is_blocked_domain d ss = ground (arith, lookup-insert_self d true ss.has_blocked_host)

other_domain :
    (ss : SiteStat) (d site : Bytes)
    → is_blocked_domain ss d ≡ true
    → IsClear ss site
    → bytes_eq (host2domain site) d ≡ false
other_domain ss d site b c = elim (Bool-cases (bytes_eq (host2domain site) d)) [
  | inl e ↦ absurd (cc (rw (eq_of_bytes_eq (host2domain site) d e) at c, b))
  | inr e ↦ e
]

mark-vcnt : (d : Bytes) (ss : SiteStat) → (mark_blocked_host d ss).vcnt ≡ ss.vcnt
unfolding mark_blocked_host
mark-vcnt d ss = ground arith

-- A temporary block is in the count of the host.
pub temp_blocked-get :
    (now : ℕ) (ss ss' : SiteStat) (url : Url)
    → temp_blocked_site now ss url ≡ some ss'
    → (vc : VisitCnt) × (get ss' url.host ≡ some (temp_blocked now vc))
unfolding get temp_blocked_site
temp_blocked-get now ss ss' url e = elim (Option-cases (get ss url.host)) [
  | inl n ↦ absurd (cc (rw (n, temp_blocked_site) at e))
  | inr (vc, y) ↦
      let marked = rw (y, temp_blocked_site) at e in
      let with_block : SiteStat = record ss {
        vcnt = insert url.host (temp_blocked now vc) ss.vcnt;
      } in
      (
        vc,
        subst (λ t. lookup url.host t.vcnt ≡ some (temp_blocked now vc)) (eq_of_some marked)
            (ap (lookup url.host) (mark-vcnt url.domain with_block)
              ∙ lookup-insert_self url.host (temp_blocked now vc) ss.vcnt),
      )
]

temp_blocked-is_blocked_domain :
    (now : ℕ) (ss ss' : SiteStat) (url : Url)
    → temp_blocked_site now ss url ≡ some ss'
    → is_blocked_domain ss' url.domain ≡ true
unfolding temp_blocked_site
temp_blocked-is_blocked_domain now ss ss' url e = elim (Option-cases (get ss url.host)) [
  | inl n ↦ absurd (cc (rw (n, temp_blocked_site) at e))
  | inr (vc, y) ↦
      let marked : some (mark_blocked_host url.domain (with_block vc)) ≡ some ss' =
        rw (y, temp_blocked_site) at e in
      subst (λ t. is_blocked_domain t url.domain ≡ true) (eq_of_some marked)
        (mark-is_blocked_domain url.domain (with_block vc))
]
  where
    with_block : VisitCnt → SiteStat
    with_block vc = record ss { vcnt = insert url.host (temp_blocked now vc) ss.vcnt }

-- Once a site was temporarily blocked, no host of its domain is in the direct list that goes into
-- the PAC file, however the hosts' own counts stand.
pub temp_blocked-direct_list :
    (now : ℕ) (ss ss' : SiteStat) (url : Url)
    → temp_blocked_site now ss url ≡ some ss'
    → All (λ site. bytes_eq (host2domain site) url.domain ≡ false) (get_direct_list ss')
unfolding get_direct_list
temp_blocked-direct_list now ss ss' url e =
    All-mono (IsClear ss') _
      (λ site. other_domain ss' url.domain site (temp_blocked-is_blocked_domain now ss ss' url e))
      (get_direct_list ss') (direct_sites-IsClear ss' ss'.vcnt)
