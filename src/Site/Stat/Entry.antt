-- ===== src/Site/Stat/Entry.antt =====
-- sitestat.go: the counts that `GetVisitCnt` hands out.
use cow.Base.{
  ℕ, ◌≡◌, refl, subst, ◌⊎◌, inl, inr, Bool, true, false, not, ◌&&◌, Option, none, some, [], ◌==◌,
  Bool-cases, Option-cases, &&-eq-true, eq_of_some, length, Bytes, bytes_eq, eq_of_bytes_eq, Map,
  lookup, insert, lookup-insert, lookup-insert_self,
}
use cow.Url.{Url}
use cow.Site.Visit.{user_specified, VisitCnt, new_visit_cnt, user_cnt}
use cow.Site.Visit.Count.{IsCounted, new_visit_cnt-IsCounted}
use cow.Site.Stat.{
  SiteStat, Ref, always_direct_cnt, at_host, get, create, listed_domain, get_visit_cnt,
  get_visit_cnt_of_host,
}

-- The count behind a pointer; `started` is when the program made `alwaysDirectVisitCnt`.
abbrev pub deref : ℕ → SiteStat → Ref → Option VisitCnt
deref started ss always_direct_cnt = some (new_visit_cnt started user_cnt 0)
deref started ss (at_host h) = lookup h ss.vcnt

-- Every count of the table satisfies the invariant of counts.
pub AllCounted : SiteStat → Type 0
AllCounted ss = (j : Bytes) (vc : VisitCnt) → lookup j ss.vcnt ≡ some vc → IsCounted vc

-- The pointer is good in the table as it is then, where no count of `ss` is lost or changed.
pub record Serves (started : ℕ) (ss : SiteStat) (r : Ref) (ss' : SiteStat) : Type 0 where
  pub cnt : VisitCnt
  pub live : deref started ss' r ≡ some cnt
  pub kept : (j : Bytes) (vc : VisitCnt) → lookup j ss.vcnt ≡ some vc → lookup j ss'.vcnt ≡ some vc
  pub counted : AllCounted ss → AllCounted ss'

same-Serves :
    (started : ℕ) (ss : SiteStat) (r : Ref) (vc : VisitCnt)
    → deref started ss r ≡ some vc
    → Serves started ss r ss
same-Serves started ss r vc e = record { cnt = vc; live = e; kept = λ j v f. f; counted = λ a. a }

kept_other :
    {v : VisitCnt} (w : VisitCnt) (h j : Bytes) (m : Map VisitCnt)
    → lookup h m ≡ none
    → lookup j m ≡ some v
    → lookup j (insert h w m) ≡ some v
kept_other w h j m e f = rw (lookup-insert h j w m) (elim (Bool-cases (bytes_eq h j)) [
  | inl y ↦ absurd (cc (e, rw (← eq_of_bytes_eq h j y) at f))
  | inr n ↦ rw n f
])

IsCounted-insert :
    {v : VisitCnt} (w : VisitCnt) (h j : Bytes) (m : Map VisitCnt)
    → IsCounted w
    → ((i : Bytes) (vc : VisitCnt) → lookup i m ≡ some vc → IsCounted vc)
    → lookup j (insert h w m) ≡ some v
    → IsCounted v
IsCounted-insert {v} w h j m c a f = elim (Bool-cases (bytes_eq h j)) [
  | inl y ↦ subst IsCounted (eq_of_some (rw (lookup-insert h j w m, y) at f)) c
  | inr n ↦ a j v (rw (lookup-insert h j w m, n) at f)
]

create-Serves :
    (started now : ℕ) (ss : SiteStat) (h : Bytes)
    → lookup h ss.vcnt ≡ none
    → Serves started ss (create now ss h).0 (create now ss h).1
unfolding create AllCounted
create-Serves started now ss h e = record {
  cnt = new_visit_cnt now 0 0;
  live = lookup-insert_self h (new_visit_cnt now 0 0) ss.vcnt;
  kept = λ j v f. kept_other (new_visit_cnt now 0 0) h j ss.vcnt e f;
  counted = λ a j v f.
      IsCounted-insert (new_visit_cnt now 0 0) h j ss.vcnt (new_visit_cnt-IsCounted now) a f;
}

listed_domain_elim :
    (o : Option VisitCnt) → listed_domain o ≡ true → (vc : VisitCnt) × (o ≡ some vc)
unfolding listed_domain
listed_domain_elim none h = cc
listed_domain_elim (some vc) h = (vc, refl)

of_host-Serves :
    (started now : ℕ) (ss : SiteStat) (url : Url)
    → get ss url.host ≡ none
    → Serves started ss (get_visit_cnt_of_host now ss url).0 (get_visit_cnt_of_host now ss url).1
unfolding get_visit_cnt_of_host get
of_host-Serves started now ss url e =
    elim (Bool-cases
      (not (length url.domain == length url.host) && listed_domain (lookup url.domain ss.vcnt))) [
        | inr n ↦ rw n (create-Serves started now ss url.host e)
        | inl y ↦
            let (vc, f) = listed_domain_elim (lookup url.domain ss.vcnt) (&&-eq-true _ _ y).1 in
            rw y (same-Serves started ss (at_host url.domain) vc f)
      ]

-- `GetVisitCnt`, with parents or without and for any URL, hands out a pointer to a count that
-- the table then holds (or to the one for direct visits), neither drops nor changes a count, and
-- keeps the invariant of counts.
pub get_visit_cnt-Serves :
    (started now : ℕ) (no_parent : Bool) (ss : SiteStat) (url : Url)
    → Serves started ss
        (get_visit_cnt no_parent now ss url).0
        (get_visit_cnt no_parent now ss url).1
unfolding get_visit_cnt
get_visit_cnt-Serves started now true ss url = same-Serves started ss always_direct_cnt _ refl
get_visit_cnt-Serves started now false ss url = elim (Bool-cases (bytes_eq url.domain [])) [
  | inl y ↦ rw y (same-Serves started ss always_direct_cnt _ refl)
  | inr n ↦ rw n (elim (Option-cases (get ss url.host)) [
    | inl e ↦ rw (e, get_visit_cnt) (of_host-Serves started now ss url e)
    | inr (vc, e) ↦ rw (e, get_visit_cnt) (same-Serves started ss (at_host url.host) vc e)
  ])
]

-- Whose count a pointer leads to.
IsKnown : ℕ → Url → Ref × SiteStat → Type 0
IsKnown started url (r, ss) =
    (vc : VisitCnt)
    → deref started ss r ≡ some vc
    → (user_specified vc ≡ true) ⊎ (lookup url.host ss.vcnt ≡ some vc)

always_direct-IsKnown :
    (started : ℕ) (ss : SiteStat) (url : Url) → IsKnown started url (always_direct_cnt, ss)
unfolding IsKnown user_specified new_visit_cnt
always_direct-IsKnown started ss url vc e = inl (rw (← eq_of_some e) refl)

listed-user_specified :
    (o : Option VisitCnt) (vc : VisitCnt)
    → listed_domain o ≡ true
    → o ≡ some vc
    → user_specified vc ≡ true
unfolding listed_domain
listed-user_specified none vc h e = cc
listed-user_specified (some w) vc h e = rw (← eq_of_some e) h

of_host-IsKnown :
    (started now : ℕ) (ss : SiteStat) (url : Url)
    → IsKnown started url (get_visit_cnt_of_host now ss url)
unfolding get_visit_cnt_of_host get create IsKnown
of_host-IsKnown started now ss url =
    elim (Bool-cases
      (not (length url.domain == length url.host) && listed_domain (lookup url.domain ss.vcnt))) [
        | inr n ↦ rw n (λ vc e. inr e)
        | inl y ↦ rw y (λ vc e. inl (listed-user_specified _ vc (&&-eq-true _ _ y).1 e))
      ]

own-IsKnown : (started : ℕ) (ss : SiteStat) (url : Url) → IsKnown started url (at_host url.host, ss)
unfolding IsKnown
own-IsKnown started ss url vc e = inr e

get_visit_cnt-IsKnown :
    (started now : ℕ) (no_parent : Bool) (ss : SiteStat) (url : Url)
    → IsKnown started url (get_visit_cnt no_parent now ss url)
unfolding get_visit_cnt
get_visit_cnt-IsKnown started now true ss url = always_direct-IsKnown started ss url
get_visit_cnt-IsKnown started now false ss url = elim (Bool-cases (bytes_eq url.domain [])) [
  | inl y ↦ rw y (always_direct-IsKnown started ss url)
  | inr n ↦ rw n (elim (Option-cases (get ss url.host)) [
    | inl e ↦ rw (e, get_visit_cnt) (of_host-IsKnown started now ss url)
    | inr (w, e) ↦ rw (e, get_visit_cnt) (own-IsKnown started ss url)
  ])
]

-- A count that `GetVisitCnt` hands out is set by the user, or the one of the URL's own host.
pub served_known :
    (started now : ℕ) (no_parent : Bool) (ss ss' : SiteStat) (url : Url) (r : Ref) (vc : VisitCnt)
    → get_visit_cnt no_parent now ss url ≡ (r, ss')
    → deref started ss' r ≡ some vc
    → (user_specified vc ≡ true) ⊎ (lookup url.host ss'.vcnt ≡ some vc)
unfolding IsKnown
served_known started now no_parent ss ss' url r vc g d =
    subst (IsKnown started url) g (get_visit_cnt-IsKnown started now no_parent ss url) vc d
