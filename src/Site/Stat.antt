-- ===== src/Site/Stat.antt =====
-- sitestat.go: `SiteStat`. Two entries of `Vcnt` never share a count, so a pointer to a count is
-- the host under which the table holds it, or `alwaysDirectVisitCnt`. Ranging over a map is a walk
-- over the list of its entries; a lock is no operation in a step that runs alone. The encoding and
-- the files of `store`, `load` and `loadSiteList` are arguments: what was read, and what is saved.
pub mod Entry
pub mod Direct
pub mod Filter
pub mod Load
use cow.Base.{
  ℕ, ◌+◌, ◌-◌, ◌/◌, Bool, true, false, not, ◌&&◌, Option, none, some, List, [], ◌∷◌, ltb, ◌==◌,
  if◌then◌else◌, length, Bytes, bytes_eq, Map, lookup, insert, delete,
}
use cow.Url.{Url}
use cow.Util.Host.{host2domain}
use cow.Site.Visit.{
  VisitCnt, new_visit_cnt, new_visit_cnt_with_time, user_specified, is_stale, should_not_save,
  as_direct, once_blocked, temp_blocked, user_cnt, zero_time, site_stale_threshold,
}

pub record SiteStat : Type 0 where
  pub update : ℕ
  pub vcnt : Map VisitCnt
  pub has_blocked_host : Map Bool

unfoldable pub new_site_stat : SiteStat
new_site_stat = record { update = zero_time; vcnt = []; has_blocked_host = [] }

-- A `*VisitCnt`.
pub data Ref : Type 0 where
  always_direct_cnt : Ref
  at_host : Bytes → Ref

unfoldable pub get : SiteStat → Bytes → Option VisitCnt
get ss s = lookup s ss.vcnt

unfoldable pub create : ℕ → SiteStat → Bytes → Ref × SiteStat
create now ss s = (at_host s, record ss { vcnt = insert s (new_visit_cnt now 0 0) ss.vcnt })

-- The value of a missing key is false.
unfoldable pub is_blocked_domain : SiteStat → Bytes → Bool
is_blocked_domain ss domain = elim (lookup domain ss.has_blocked_host) [ none ↦ false | some b ↦ b ]

mark_blocked_host : Bytes → SiteStat → SiteStat
unfolding is_blocked_domain
mark_blocked_host domain ss =
    if not (is_blocked_domain ss domain)
    then record ss { has_blocked_host = insert domain true ss.has_blocked_host }
    else ss

-- `none` is the panic on a host that has no count.
unfoldable pub temp_blocked_site : ℕ → SiteStat → Url → Option SiteStat
unfolding get mark_blocked_host
temp_blocked_site now ss url = elim (get ss url.host) [
  | none ↦ none
  | some vc ↦ some (
      mark_blocked_host url.domain
        (record ss { vcnt = insert url.host (temp_blocked now vc) ss.vcnt }))
]

-- Whether the domain's count is one set by the user.
unfoldable pub listed_domain : Option VisitCnt → Bool
listed_domain none = false
listed_domain (some vc) = user_specified vc

get_visit_cnt_of_host : ℕ → SiteStat → Url → Ref × SiteStat
unfolding listed_domain get create
get_visit_cnt_of_host now ss url =
    if not (length url.domain == length url.host) && listed_domain (get ss url.domain)
    then (at_host url.domain, ss)
    else create now ss url.host

unfoldable pub get_visit_cnt : Bool → ℕ → SiteStat → Url → Ref × SiteStat
unfolding get_visit_cnt_of_host get
get_visit_cnt no_parent now ss url =
    if no_parent
    then (always_direct_cnt, ss)
    else if bytes_eq url.domain []
    then (always_direct_cnt, ss)
    else elim (get ss url.host) [
      | some vc ↦ (at_host url.host, ss)
      | none ↦ get_visit_cnt_of_host now ss url
    ]

-- The entries that `store` copies, in the order of the walk.
saved_entries : ℕ → Map VisitCnt → Map VisitCnt
saved_entries now [] = []
saved_entries now ((site, vc) ∷ m) =
    if should_not_save now vc then saved_entries now m else (site, vc) ∷ saved_entries now m

store_dated : ℕ → SiteStat → SiteStat × SiteStat
unfolding saved_entries
store_dated now ss =
    let half = ss.update + site_stale_threshold / 2 in
    let late : SiteStat = record ss { update = if ltb now half then now else half } in
    let fresh : SiteStat = record {
      update = now;
      vcnt = saved_entries now ss.vcnt;
      has_blocked_host = [];
    } in
    if ltb site_stale_threshold (now - ss.update) then (late, late) else (ss, fresh)

-- What `store` leaves in the table, and what it writes to the file. In the first branch the two
-- are one object.
unfoldable pub store : ℕ → SiteStat → SiteStat × SiteStat
unfolding store_dated
store now ss = store_dated now (if ss.update == zero_time then record ss { update = now } else ss)

unfoldable pub load_list : List Bytes → ℕ → ℕ → SiteStat → SiteStat
load_list [] direct blocked ss = ss
load_list (d ∷ lst) direct blocked ss =
    load_list lst direct blocked
      (record ss { vcnt = insert d (new_visit_cnt_with_time direct blocked zero_time) ss.vcnt })

-- What one round of `filterSites` finds out of an entry.
unfoldable pub should_remove : ℕ → SiteStat → Bytes → VisitCnt → Bool
unfolding listed_domain get
should_remove now ss site vc =
    if user_specified vc
    then false
    else if is_stale now vc
    then true
    else not (bytes_eq (host2domain site) site) && listed_domain (get ss (host2domain site))

unfoldable pub remove_sites : ℕ → SiteStat → Map VisitCnt → List Bytes
unfolding should_remove
remove_sites now ss [] = []
remove_sites now ss ((site, vc) ∷ m) =
    if should_remove now ss site vc then site ∷ remove_sites now ss m else remove_sites now ss m

unfoldable pub delete_all : List Bytes → Map VisitCnt → Map VisitCnt
delete_all [] m = m
delete_all (site ∷ sites) m = delete_all sites (delete site m)

unfoldable pub filter_sites : ℕ → SiteStat → SiteStat
unfolding remove_sites delete_all
filter_sites now ss = record ss { vcnt = delete_all (remove_sites now ss ss.vcnt) ss.vcnt }

-- `GetDirectList`.
unfoldable pub direct_sites : SiteStat → Map VisitCnt → List Bytes
unfolding is_blocked_domain
direct_sites ss [] = []
direct_sites ss ((site, vc) ∷ m) =
    if is_blocked_domain ss (host2domain site)
    then direct_sites ss m
    else if as_direct vc
    then site ∷ direct_sites ss m
    else direct_sites ss m

unfoldable pub get_direct_list : SiteStat → List Bytes
unfolding direct_sites
get_direct_list ss = direct_sites ss ss.vcnt

-- The last loop of `load`.
mark_once_blocked : ℕ → Map VisitCnt → SiteStat → SiteStat
mark_once_blocked now [] ss = ss
mark_once_blocked now ((host, vc) ∷ m) ss = mark_once_blocked now m (
    if once_blocked now vc
    then record ss { has_blocked_host = insert (host2domain host) true ss.has_blocked_host }
    else ss)

-- The lists that `load` puts over what it read: the built-in ones and the user's, a list that
-- could not be read being `none`.
pub record SiteLists : Type 0 where
  pub blocked_domain_list : List Bytes
  pub direct_domain_list : List Bytes
  pub direct_file : Option (List Bytes)
  pub blocked_file : Option (List Bytes)

abbrev load_file : Option (List Bytes) → ℕ → ℕ → SiteStat → SiteStat
load_file none direct blocked ss = ss
load_file (some lst) direct blocked ss = load_list lst direct blocked ss

unfoldable pub load_builtin_list : SiteLists → SiteStat → SiteStat
load_builtin_list l ss =
    load_list l.direct_domain_list user_cnt 0 (load_list l.blocked_domain_list 0 user_cnt ss)

unfoldable pub load_user_list : SiteLists → SiteStat → SiteStat
load_user_list l ss = load_file l.blocked_file 0 user_cnt (load_file l.direct_file user_cnt 0 ss)

-- The deferred part of `load`, on the table as it was read.
unfoldable pub load : ℕ → SiteLists → SiteStat → SiteStat
unfolding load_builtin_list load_user_list load_list filter_sites mark_once_blocked
load now l ss =
    let filtered = filter_sites now (load_user_list l (load_builtin_list l ss)) in
    mark_once_blocked now filtered.vcnt filtered
