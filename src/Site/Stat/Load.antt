-- ===== src/Site/Stat/Load.antt =====
-- sitestat.go: the order in which `load` puts the site lists over one another.
use cow.Base.{
  ℕ, ◌≡◌, refl, ap, ◌∙◌, Bool, true, false, Option, none, some, List, [], ◌∷◌, arith, if◌then◌else◌,
  any, Bytes, bytes_eq, Map, lookup, lookup-insert, Distinct, insert-Distinct,
}
use cow.Site.Visit.{VisitCnt, new_visit_cnt_with_time, user_specified, user_cnt, zero_time}
use cow.Site.Stat.{
  SiteStat, SiteLists, should_remove, load_list, load_builtin_list, load_user_list, filter_sites,
  mark_once_blocked, load, load_file,
}
use cow.Site.Stat.Filter.{lookup-filter_sites-unless}

abbrev pub is_in : Bytes → List Bytes → Bool
is_in d lst = any (λ s. bytes_eq s d) lst

abbrev pub is_in_file : Bytes → Option (List Bytes) → Bool
is_in_file d none = false
is_in_file d (some lst) = is_in d lst

abbrev pub listed_direct : VisitCnt
listed_direct = new_visit_cnt_with_time user_cnt 0 zero_time

abbrev pub listed_blocked : VisitCnt
listed_blocked = new_visit_cnt_with_time 0 user_cnt zero_time

-- The count that the lists give a site: the user's blocked sites come first, then the user's
-- direct sites, the built-in direct ones and the built-in blocked ones.
abbrev pub listing : SiteLists → Bytes → Option VisitCnt → Option VisitCnt
listing l d other =
    if is_in_file d l.blocked_file
    then some listed_blocked
    else if is_in_file d l.direct_file
    then some listed_direct
    else if is_in d l.direct_domain_list
    then some listed_direct
    else if is_in d l.blocked_domain_list
    then some listed_blocked
    else other

lookup-load_list :
    (d : Bytes) (lst : List Bytes) (direct blocked : ℕ) (ss : SiteStat)
    → lookup d (load_list lst direct blocked ss).vcnt ≡ (
        if is_in d lst
        then some (new_visit_cnt_with_time direct blocked zero_time)
        else lookup d ss.vcnt)
unfolding load_list
lookup-load_list d [] direct blocked ss = refl
lookup-load_list d (s ∷ lst) direct blocked ss =
    lookup-load_list d lst direct blocked _
    ∙ ground (arith, lookup-insert s d (new_visit_cnt_with_time direct blocked zero_time) ss.vcnt)

load_list-Distinct :
    (lst : List Bytes) (direct blocked : ℕ) (ss : SiteStat)
    → Distinct ss.vcnt
    → Distinct (load_list lst direct blocked ss).vcnt
unfolding load_list
load_list-Distinct [] direct blocked ss h = h
load_list-Distinct (s ∷ lst) direct blocked ss h =
    load_list-Distinct lst direct blocked _ (insert-Distinct s _ ss.vcnt h)

lookup-load_file :
    (d : Bytes) (o : Option (List Bytes)) (direct blocked : ℕ) (ss : SiteStat)
    → lookup d (load_file o direct blocked ss).vcnt ≡ (
        if is_in_file d o
        then some (new_visit_cnt_with_time direct blocked zero_time)
        else lookup d ss.vcnt)
lookup-load_file d none direct blocked ss = refl
lookup-load_file d (some lst) direct blocked ss = lookup-load_list d lst direct blocked ss

load_file-Distinct :
    (o : Option (List Bytes)) (direct blocked : ℕ) (ss : SiteStat)
    → Distinct ss.vcnt
    → Distinct (load_file o direct blocked ss).vcnt
load_file-Distinct none direct blocked ss h = h
load_file-Distinct (some lst) direct blocked ss h = load_list-Distinct lst direct blocked ss h

module _ (l : SiteLists) (ss : SiteStat) where
  lookup-lists :
      (d : Bytes)
      → lookup d (load_user_list l (load_builtin_list l ss)).vcnt ≡ listing l d (lookup d ss.vcnt)
  unfolding load_user_list load_builtin_list
  lookup-lists d =
      let built = load_list l.blocked_domain_list 0 user_cnt ss in
      let direct = load_list l.direct_domain_list user_cnt 0 built in
      rw
        (
          lookup-load_file d l.blocked_file 0 user_cnt (load_file l.direct_file user_cnt 0 direct),
          lookup-load_file d l.direct_file user_cnt 0 direct,
          lookup-load_list d l.direct_domain_list user_cnt 0 built,
          lookup-load_list d l.blocked_domain_list 0 user_cnt ss,
        )
        refl

  lists-Distinct : Distinct ss.vcnt → Distinct (load_user_list l (load_builtin_list l ss)).vcnt
  unfolding load_user_list load_builtin_list
  lists-Distinct h = load_file-Distinct l.blocked_file 0 user_cnt _ (
      load_file-Distinct l.direct_file user_cnt 0 _ (
        load_list-Distinct l.direct_domain_list user_cnt 0 _
          (load_list-Distinct l.blocked_domain_list 0 user_cnt ss h)))

mark_once_blocked-vcnt :
    (now : ℕ) (m : Map VisitCnt) (ss : SiteStat) → (mark_once_blocked now m ss).vcnt ≡ ss.vcnt
unfolding mark_once_blocked
mark_once_blocked-vcnt now [] ss = refl
mark_once_blocked-vcnt now ((h, vc) ∷ m) ss = mark_once_blocked-vcnt now m _ ∙ ground arith

listing-user_specified :
    (l : SiteLists) (d : Bytes) (vc : VisitCnt)
    → listing l d none ≡ some vc
    → user_specified vc ≡ true
unfolding user_specified new_visit_cnt_with_time
listing-user_specified l d vc h = ground arith

listing_other :
    (l : SiteLists) (d : Bytes) (o : Option VisitCnt) (vc : VisitCnt)
    → listing l d none ≡ some vc
    → listing l d o ≡ some vc
listing_other l d o vc h = ground arith

should_remove_user :
    (now : ℕ) (ss : SiteStat) (d : Bytes) (vc : VisitCnt)
    → user_specified vc ≡ true
    → should_remove now ss d vc ≡ false
unfolding should_remove
should_remove_user now ss d vc u = rw u

filter_sites_keeps :
    (now : ℕ) (ss : SiteStat) (d : Bytes) (vc : VisitCnt)
    → Distinct ss.vcnt
    → lookup d ss.vcnt ≡ some vc
    → user_specified vc ≡ true
    → lookup d (filter_sites now ss).vcnt ≡ some vc
filter_sites_keeps now ss d vc h e u =
    lookup-filter_sites-unless now ss d h ∙ rw (e, should_remove_user now ss d vc u) refl

-- Whatever the statistics file held, a site of the lists has after `load` the count that the
-- first list with it gives: the user's blocked sites, then the user's direct sites, the built-in
-- direct sites, the built-in blocked sites. `filterSites` takes none of them away.
pub load-listing :
    (now : ℕ) (l : SiteLists) (ss : SiteStat) (d : Bytes) (vc : VisitCnt)
    → Distinct ss.vcnt
    → listing l d none ≡ some vc
    → lookup d (load now l ss).vcnt ≡ some vc
unfolding load
load-listing now l ss d vc h e =
    let lists = load_user_list l (load_builtin_list l ss) in
    let found = lookup-lists l ss d ∙ listing_other l d (lookup d ss.vcnt) vc e in
    let filtered = filter_sites now lists in
    ap (lookup d) (mark_once_blocked-vcnt now filtered.vcnt filtered)
    ∙ filter_sites_keeps now lists d vc (lists-Distinct l ss h) found
        (listing-user_specified l d vc e)
