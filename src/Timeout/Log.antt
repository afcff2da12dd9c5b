-- ===== src/Timeout/Log.antt =====
-- timeoutset.go: the set against the log of its calls.
use cow.Base.{
  ℕ, ◌-◌, ◌≤◌, ◌≡◌, refl, sym, subst, ◌∙◌, ◌⊎◌, inl, inr, Bool, true, false, Option, none, some,
  List, [], ◌∷◌, arith, ltb, leb, if◌then◌else◌, Bool-cases, Option-cases, Bytes, bytes_eq,
  eq_of_bytes_eq, lookup, lookup-insert, lookup-delete,
}
use cow.Timeout.{TimeoutSet, new_timeout_set, add, del, has}

pub data Call : Type 0 where
  adds asks dels : Bytes → Call

-- A history, the latest call first, each call with its time.
abbrev pub History : Type 0
History = List (ℕ × Call)

abbrev pub step : TimeoutSet → ℕ × Call → TimeoutSet
step ts (now, adds k) = add now k ts
step ts (now, asks k) = (has now k ts).1
step ts (now, dels k) = del k ts

abbrev pub run : ℕ → History → TimeoutSet
run timeout [] = new_timeout_set timeout
run timeout (c ∷ h) = step (run timeout h) c

-- When the key was last added, if it was not deleted since.
abbrev pub last_add : Bytes → History → Option ℕ
last_add k [] = none
last_add k ((now, adds j) ∷ h) = if bytes_eq j k then some now else last_add k h
last_add k ((now, asks j) ∷ h) = last_add k h
last_add k ((now, dels j) ∷ h) = if bytes_eq j k then none else last_add k h

-- The clock does not run backwards, and no call is later than `now`.
abbrev pub Before : ℕ → History → Type 0
Before now [] = Unit
Before now ((t, c) ∷ h) = (t ≤ now) × Before t h

abbrev pub is_fresh : ℕ → ℕ → Option ℕ → Bool
is_fresh timeout now none = false
is_fresh timeout now (some t) = leb (now - t) timeout

-- What the set keeps of a key: its last addition, or nothing if that has expired.
abbrev Tracks : ℕ → ℕ → Option ℕ → Option ℕ → Type 0
Tracks timeout now kept last = (kept ≡ last) ⊎ ((kept ≡ none) × (is_fresh timeout now last ≡ false))

run-timeout : (timeout : ℕ) (h : History) → (run timeout h).timeout ≡ timeout
unfolding add del has new_timeout_set
run-timeout timeout [] = refl
run-timeout timeout ((t, adds k) ∷ h) = run-timeout timeout h
run-timeout timeout ((t, asks k) ∷ h) = ground (arith, run-timeout timeout h)
run-timeout timeout ((t, dels k) ∷ h) = run-timeout timeout h

is_fresh_later :
    (timeout t now : ℕ) (o : Option ℕ)
    → t ≤ now
    → is_fresh timeout t o ≡ false
    → is_fresh timeout now o ≡ false
is_fresh_later timeout t now none h e = refl
is_fresh_later timeout t now (some a) h e = ground arith

Tracks-later :
    (timeout t now : ℕ) (kept last : Option ℕ)
    → t ≤ now
    → Tracks timeout t kept last
    → Tracks timeout now kept last
Tracks-later timeout t now kept last h (inl e) = inl e
Tracks-later timeout t now kept last h (inr (e, f)) = inr (e, is_fresh_later timeout t now last h f)

-- Dropping a member that has expired loses nothing.
expire-Tracks :
    (timeout t a : ℕ) (kept last : Option ℕ)
    → kept ≡ some a
    → ltb timeout (t - a) ≡ true
    → Tracks timeout t kept last
    → Tracks timeout t none last
expire-Tracks timeout t a kept last e x (inl f) = inr (refl, rw (sym f ∙ e) (ground arith))
expire-Tracks timeout t a kept last e x (inr (f, _)) = absurd (cc (e, f))

has-Tracks :
    (ts : TimeoutSet) (t : ℕ) (j k : Bytes) (last : Option ℕ)
    → Tracks ts.timeout t (lookup k ts.time) last
    → Tracks ts.timeout t (lookup k (has t j ts).1.time) last
unfolding has del
has-Tracks ts t j k last h = elim (Option-cases (lookup j ts.time)) [
  | inl e ↦ rw (e, has) h
  | inr (a, e) ↦ elim (Bool-cases (ltb ts.timeout (t - a))) [
    | inr f ↦ rw (e, has, f) h
    | inl f ↦
        rw (e, has, f)
          (rw (lookup-delete j k ts.time) (elim (Bool-cases (bytes_eq j k)) [
            | inr n ↦ rw n h
            | inl y ↦ rw y (
                expire-Tracks ts.timeout t a (lookup k ts.time) last
                  (rw (eq_of_bytes_eq j k y) at e) f h)
          ]))
  ]
]

run-Tracks :
    (timeout now : ℕ) (k : Bytes) (h : History)
    → Before now h
    → Tracks timeout now (lookup k (run timeout h).time) (last_add k h)
unfolding add del new_timeout_set lookup
run-Tracks timeout now k [] b = inl refl
run-Tracks timeout now k ((t, adds j) ∷ h) b =
    rw (lookup-insert j k t (run timeout h).time) (elim (Bool-cases (bytes_eq j k)) [
      | inl y ↦ rw y (inl refl)
      | inr n ↦ rw n (Tracks-later timeout t now _ _ b.0 (run-Tracks timeout t k h b.1))
    ])
run-Tracks timeout now k ((t, asks j) ∷ h) b =
    let same = run-timeout timeout h in
    Tracks-later timeout t now _ _ b.0 (
      subst (λ d. Tracks d t (lookup k (has t j (run timeout h)).1.time) (last_add k h)) same
        (has-Tracks (run timeout h) t j k (last_add k h) (rw same (run-Tracks timeout t k h b.1))))
run-Tracks timeout now k ((t, dels j) ∷ h) b =
    rw (lookup-delete j k (run timeout h).time) (elim (Bool-cases (bytes_eq j k)) [
      | inl y ↦ rw y (inl refl)
      | inr n ↦ rw n (Tracks-later timeout t now _ _ b.0 (run-Tracks timeout t k h b.1))
    ])

has-eq-is_fresh :
    (ts : TimeoutSet) (now : ℕ) (k : Bytes) (last : Option ℕ)
    → Tracks ts.timeout now (lookup k ts.time) last
    → (has now k ts).0 ≡ is_fresh ts.timeout now last
unfolding has
has-eq-is_fresh ts now k last h = ground (arith, is_fresh)

-- After any history of calls with a clock that does not run backwards, `has` answers yes exactly
-- for a key that was added, not deleted since, and last added no longer ago than the timeout:
-- the expired members that earlier calls of `has` removed make no difference.
pub has-run :
    (timeout now : ℕ) (k : Bytes) (h : History)
    → Before now h
    → (has now k (run timeout h)).0 ≡ is_fresh timeout now (last_add k h)
has-run timeout now k h b =
    let same = run-timeout timeout h in
    subst (λ d. (has now k (run timeout h)).0 ≡ is_fresh d now (last_add k h)) same
      (has-eq-is_fresh (run timeout h) now k (last_add k h)
        (rw same (run-Tracks timeout now k h b)))
