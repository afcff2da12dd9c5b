-- ===== src/Proxy/Retry/Ends.antt =====
-- proxy.go: the retries of a request come to an end.
use cow.Base.{
  ℕ, suc, ◌+◌, ◌%◌, ◌≤◌, ◌<◌, ◌≡◌, sym, ap, subst, ◌∙◌, ◌≢◌, ◌⊎◌, inl, inr, Bool, true, false,
  Option, some, List, [], ◌∷◌, arith, ltb, Bool-cases, Option-cases, eq_of_some, length, lookup,
}
use cow.Url.{Url}
use cow.Site.Visit.{VisitCnt, as_temp_blocked, always_direct, tmp_blocked_timeout, temp_blocked}
use cow.Site.Stat.Direct.{temp_blocked-get}
use cow.Site.Stat.{SiteStat, temp_blocked_site}
use cow.Proxy.Retry.{
  RequestState, ServerConn, ServeError, maybe_fake, response_not_sent, too_many_retry, is_err_retry,
  should_retry, Attempt, attempted, unfinished, retry_loop, try_once,
}

-- The table after a temporary block of the URL's host at a time from `t0` on.
abbrev pub BlockedSince : ℕ → Url → SiteStat → Type 0
BlockedSince t0 url ss =
    (vc : VisitCnt) × (lookup url.host ss.vcnt ≡ some vc) × (t0 ≤ vc.blocked_on)

-- A try within the time of a temporary block that starts at `t0`: where the host is blocked, its
-- connection is not direct, or it is an always direct site's, and what happens to the table does not take a block back.
pub record IsFair (t0 : ℕ) (url : Url) (a : Attempt) (ss : SiteStat) : Type 0 where
  pub from : t0 ≤ a.now
  pub until : a.now < t0 + tmp_blocked_timeout
  pub routed :
      (vc : VisitCnt)
      → lookup url.host ss.vcnt ≡ some vc
      → as_temp_blocked a.now vc ≡ true
      → (a.sv.direct ≡ false) ⊎ (always_direct a.sv.site_info ≡ true)
  pub keeps : BlockedSince t0 url ss → BlockedSince t0 url (a.after ss)

-- Every try that the loop makes is such a one.
unfoldable pub AreFair : ℕ → Url → List Attempt → RequestState → SiteStat → Type 0
AreFair t0 url [] r ss = Unit
AreFair t0 url (a ∷ later) r ss =
    IsFair t0 url a ss
    × ((r' : RequestState) (ss' : SiteStat)
        → should_retry a.now url (a.after ss) (attempted a r) a.sv a.error ≡ some (true, r', ss')
        → AreFair t0 url later r' ss')

-- What the decision to try again says of the count of tries and of the table.
data Goes (now : ℕ) (url : Url) (ss : SiteStat) (r : RequestState) (sv : ServerConn)
    (r' : RequestState) (ss' : SiteStat) : Type 0 where
  counted :
      too_many_retry r ≡ false → r'.try_cnt ≡ r.try_cnt → ss' ≡ ss → Goes now url ss r sv r' ss'
  blocked :
      too_many_retry r ≡ true
      → maybe_fake sv ≡ true
      → r'.try_cnt ≡ 0
      → temp_blocked_site now ss url ≡ some ss'
      → Goes now url ss r sv r' ss'

decision_eq :
    {b b' : Bool} {r r' : RequestState} {ss ss' : SiteStat}
    → ◌≡◌ {A = Option (Bool × RequestState × SiteStat)} (some (b, r, ss)) (some (b', r', ss'))
    → (b ≡ b') × (r ≡ r') × (ss ≡ ss')
decision_eq e =
    let p = eq_of_some e in
    (
      ap (λ (q : Bool × RequestState × SiteStat). q.0) p,
      ap (λ (q : Bool × RequestState × SiteStat). q.1) p,
      ap (λ (q : Bool × RequestState × SiteStat). q.2) p,
    )

-- The decision once the answer can still be replaced.
last_steps :
    (now : ℕ) (url : Url) (ss : SiteStat) (r : RequestState) (sv : ServerConn)
    (re : Option ServeError) (r' : RequestState) (ss' : SiteStat)
    → is_err_retry re ≡ true
    → response_not_sent r ≡ true
    → r.partial ≡ false
    → r.has_raw ≡ true
    → should_retry now url ss r sv re ≡ some (true, r', ss')
    → Goes now url ss r sv r' ss'
unfolding should_retry
last_steps now url ss r sv re r' ss' f g h i e = elim (Bool-cases (too_many_retry r)) [
  | inr j ↦
      let q = decision_eq (rw (f, g, j, h, i) at e) in
      counted j (ap (λ (x : RequestState). x.try_cnt) (sym (q.1))) (sym (q.2))
  | inl j ↦ elim (Bool-cases (maybe_fake sv)) [
    | inr k ↦ absurd (cc ((decision_eq (rw (f, g, j, k, h, i) at e)).0))
    | inl k ↦ elim (Option-cases (temp_blocked_site now ss url)) [
      | inl n ↦ absurd (cc (rw (f, g, j, k, n, h, i) at e))
      | inr (t, n) ↦
          let q = decision_eq (rw (f, g, j, k, n, h, i) at e) in
          blocked j k (ap (λ (x : RequestState). x.try_cnt) (sym (q.1))) (n ∙ ap some (q.2))
    ]
  ]
]

should_retry-Goes :
    (now : ℕ) (url : Url) (ss : SiteStat) (r : RequestState) (sv : ServerConn)
    (re : Option ServeError) (r' : RequestState) (ss' : SiteStat)
    → should_retry now url ss r sv re ≡ some (true, r', ss')
    → Goes now url ss r sv r' ss'
unfolding should_retry
should_retry-Goes now url ss r sv re r' ss' e = elim (Bool-cases (is_err_retry re)) [
  | inr f ↦ absurd (cc ((decision_eq (rw f at e)).0))
  | inl f ↦ elim (Bool-cases (response_not_sent r)) [
    | inr g ↦ absurd (cc ((decision_eq (rw (f, g) at e)).0))
    | inl g ↦ elim (Bool-cases r.partial) [
      | inl h ↦ absurd (cc ((decision_eq (rw (f, g, h) at e)).0))
      | inr h ↦ elim (Bool-cases r.has_raw) [
        | inr i ↦ absurd (cc (rw (f, g, h, i) at e))
        | inl i ↦ last_steps now url ss r sv re r' ss' f g h i e
      ]
    ]
  ]
]

-- A time in the two minutes after `t0` is near to any later block.
recent :
    (t0 : ℕ) (now : ℕ) (vc : VisitCnt)
    → now < t0 + tmp_blocked_timeout
    → t0 ≤ vc.blocked_on
    → as_temp_blocked now vc ≡ true
unfolding as_temp_blocked
recent t0 now vc until on = ground arith

-- A try of a blocked host does not count as a fake answer.
routed_away :
    (t0 : ℕ) (url : Url) (a : Attempt) (ss : SiteStat)
    → IsFair t0 url a ss
    → BlockedSince t0 url ss
    → maybe_fake a.sv ≡ false
unfolding maybe_fake
routed_away t0 url a ss fair (vc, e, on) =
    elim (fair.routed vc e (recent t0 a.now vc (fair.until) on)) [
      | inl d ↦ ground arith
      | inr d ↦ ground arith
    ]

-- A loop that is not at its end after a try has decided to try again.
goes_on :
    (url : Url) (a : Attempt) (later : List Attempt) (r : RequestState) (ss : SiteStat)
    → retry_loop url (a ∷ later) r ss ≡ unfinished
    → (r' : RequestState) × (ss' : SiteStat) × (should_retry a.now url
          (a.after ss)
          (attempted a r)
          a.sv
          a.error
        ≡ some (true, r', ss'))
      × (retry_loop url later r' ss' ≡ unfinished)
unfolding retry_loop
goes_on url a later r ss e =
    elim (Option-cases (should_retry a.now url (a.after ss) (attempted a r) a.sv a.error)) [
      | inl n ↦ absurd (cc (rw (n, should_retry) at e))
      | inr ((false, r', ss'), n) ↦ absurd (cc (rw (n, should_retry) at e))
      | inr ((true, r', ss'), n) ↦ (r', ss', n, rw (n, should_retry) at e)
    ]

-- What is left of the bounds on the tries after one more.
fewer :
    (n k m : ℕ)
    → n ≤ 3
    → k ≤ n + suc m
    → ltb 3 ((n + 1) % 256) ≡ false
    → ((n + 1) % 256 ≤ 3) × (k ≤ (n + 1) % 256 + m)
fewer n k m low enough few = ground arith

-- From a blocked host on, four tries are enough.
ends_blocked :
    (t0 : ℕ) (url : Url) (later : List Attempt) (r : RequestState) (ss : SiteStat)
    → AreFair t0 url later r ss
    → BlockedSince t0 url ss
    → r.try_cnt ≤ 3
    → 4 ≤ r.try_cnt + length later
    → retry_loop url later r ss ≢ unfinished
unfolding AreFair too_many_retry attempted try_once
ends_blocked t0 url [] r ss fair b low enough e = absurd (omega arith)
ends_blocked t0 url (a ∷ later) r ss (fair, fairs) b low enough e =
    let (r', ss', again, e') = goes_on url a later r ss e in
    let away = routed_away t0 url a ss fair b in
    elim (should_retry-Goes a.now url (a.after ss) (attempted a r) a.sv a.error r' ss' again) [
      | blocked many fake reset put ↦ absurd (cc)
      | counted few same t ↦
          let (low', enough') = fewer (r.try_cnt) 4 (length later) low enough few in
          ends_blocked t0 url later r' ss' (fairs r' ss' again)
            (subst (BlockedSince t0 url) (sym t) (fair.keeps b))
            (subst (λ n. n ≤ 3) (sym same) low')
            (subst (λ n. 4 ≤ n + length later) (sym same) enough') e'
    ]

-- A block that is put at a time from `t0` on.
put-BlockedSince :
    (t0 now : ℕ) (url : Url) (ss ss' : SiteStat)
    → t0 ≤ now
    → temp_blocked_site now ss url ≡ some ss'
    → BlockedSince t0 url ss'
unfolding cow.Site.Stat.get temp_blocked
put-BlockedSince t0 now url ss ss' from put =
    let (vc, e) = temp_blocked-get now ss ss' url put in (temp_blocked now vc, e, from)

ends_from :
    (t0 : ℕ) (url : Url) (later : List Attempt) (r : RequestState) (ss : SiteStat)
    → AreFair t0 url later r ss
    → r.try_cnt ≤ 3
    → 8 ≤ r.try_cnt + length later
    → retry_loop url later r ss ≢ unfinished
unfolding AreFair too_many_retry attempted try_once
ends_from t0 url [] r ss fair low enough e = absurd (omega arith)
ends_from t0 url (a ∷ later) r ss (fair, fairs) low enough e =
    let (r', ss', again, e') = goes_on url a later r ss e in
    elim (should_retry-Goes a.now url (a.after ss) (attempted a r) a.sv a.error r' ss' again) [
      | blocked many fake reset put ↦
          ends_blocked t0 url later r' ss' (fairs r' ss' again)
            (put-BlockedSince t0 a.now url (a.after ss) ss' (fair.from) put)
            (subst (λ n. n ≤ 3) (sym reset) (omega arith))
            (subst (λ n. 4 ≤ n + length later) (sym reset) (omega arith)) e'
      | counted few same t ↦
          let (low', enough') = fewer (r.try_cnt) 8 (length later) low enough few in
          ends_from t0 url later r' ss' (fairs r' ss' again) (subst (λ n. n ≤ 3) (sym same) low')
            (subst (λ n. 8 ≤ n + length later) (sym same) enough') e'
    ]

-- A request that has not been tried is not tried for ever: of eight tries within the time of a
-- temporary block, one is the last, whatever each came to, where a host that is temporarily
-- blocked gets no direct connection (but for an always direct site) and the other goroutines take
-- no block back.
pub retry_loop-ends :
    (t0 : ℕ) (url : Url) (later : List Attempt) (r : RequestState) (ss : SiteStat)
    → AreFair t0 url later r ss
    → r.try_cnt ≡ 0
    → 8 ≤ length later
    → retry_loop url later r ss ≢ unfinished
retry_loop-ends t0 url later r ss fair start enough =
    ends_from t0 url later r ss fair (omega arith) (omega arith)
