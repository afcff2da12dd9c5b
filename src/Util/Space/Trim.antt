-- ===== src/Util/Space/Trim.antt =====
-- util.go: what `TrimSpace` returns.
use cow.Base.{
  ℕ, zero, suc, ◌+◌, ◌-◌, ◌≤◌, ◌<◌, ◌≡◌, refl, sym, ap, ◌∙◌, inl, inr, true, false, [], ◌∷◌, ◌++◌,
  arith, dec_lt, ◌==◌, Bool-cases, length, get_or, take, drop, take-append-drop, length-take,
  length-drop, all, get_or-drop, get_or-take, take-take, drop-append_le, take-suc, drop_all,
  take_all, all-append, Bytes,
}
use mathlib.Core.List.{append-nil, append_assoc}
use cow.Util.Space.{is_space, trim_start, trim_end, trim_space}

trim_start-le : (s : Bytes) → trim_start s ≤ length s
unfolding trim_start
trim_start-le [] = omega arith
trim_start-le (c ∷ cs) = ground (arith, trim_start-le cs)

-- What stands before the first byte kept is white space, and that byte is none.
all-take-trim_start : (s : Bytes) → all is_space (take (trim_start s) s) ≡ true
unfolding trim_start
all-take-trim_start [] = refl
all-take-trim_start (c ∷ cs) = elim (Bool-cases (is_space c)) [
  | inl e ↦ rw (e, trim_start) (rw e (all-take-trim_start cs))
  | inr e ↦ rw (e, trim_start) refl
]

get_or-trim_start :
    (s : Bytes) → trim_start s < length s → is_space (get_or s (trim_start s) 0) ≡ false
unfolding trim_start
get_or-trim_start [] h = elim h [ ]
get_or-trim_start (c ∷ cs) h = elim (Bool-cases (is_space c)) [
  | inl e ↦ rw (e, trim_start) (get_or-trim_start cs (ground arith))
  | inr e ↦ rw (e, trim_start) e
]

pub trim_end-le : (s : Bytes) (k : ℕ) → trim_end s k ≤ k
unfolding trim_end
trim_end-le s zero = omega arith
trim_end-le s (suc k) = ground (arith, trim_end-le s k)

get_or-trim_end :
    (s : Bytes) (k : ℕ) → 0 < trim_end s k → is_space (get_or s (trim_end s k - 1) 0) ≡ false
unfolding trim_end
get_or-trim_end s zero h = elim h [ ]
get_or-trim_end s (suc k) h = elim (Bool-cases (is_space (get_or s k 0))) [
  | inl e ↦ rw (e, trim_end) (get_or-trim_end s k (ground arith))
  | inr e ↦ rw (e, trim_end) (ap (λ i. is_space (get_or s i 0)) (omega arith) ∙ e)
]

fits : (s : Bytes) (k : ℕ) → k < length s → trim_end s k ≤ length (take k s)
fits s k h = omega (arith, trim_end-le s k, length-take k s)

-- A byte that is no white space stops the loop from the right.
pub lt-trim_end : (s : Bytes) (k p : ℕ) → p < k → is_space (get_or s p 0) ≡ false → p < trim_end s k
unfolding trim_end
lt-trim_end s zero p h e = elim h [ ]
lt-trim_end s (suc k) p h e = elim (Bool-cases (is_space (get_or s k 0))) [
  | inl f ↦ rw (f, trim_end) (lt-trim_end s k p (below f) e)
  | inr f ↦ rw (f, trim_end) h
]
  where
    below : is_space (get_or s k 0) ≡ true → p < k
    below f = grind arith

all-drop-trim_end :
    (s : Bytes) (k : ℕ) → k ≤ length s → all is_space (drop (trim_end s k) (take k s)) ≡ true
unfolding trim_end
all-drop-trim_end s zero h = refl
all-drop-trim_end s (suc k) h = elim (Bool-cases (is_space (get_or s k 0))) [
  | inl e ↦
      rw (e, trim_end)
        (rw
          (
            take-suc k s 0 h,
            drop-append_le (trim_end s k) (take k s) (get_or s k 0 ∷ []) (fits s k h),
          )
          (all-append is_space (drop (trim_end s k) (take k s)) (get_or s k 0 ∷ [])
            (all-drop-trim_end s k (omega arith)) (rw e refl)))
  | inr e ↦
      rw (e, trim_end)
        (ap (all is_space)
          (drop_all (suc k) (take (suc k) s) (omega (arith, length-take (suc k) s))))
]

pub record IsTrimOf (s r : Bytes) : Type 0 where
  pub lead : Bytes
  pub tail : Bytes
  pub splits : s ≡ lead ++ (r ++ tail)
  pub lead_blank : all is_space lead ≡ true
  pub tail_blank : all is_space tail ≡ true
  pub first_kept : 0 < length r → is_space (get_or r 0 0) ≡ false
  pub last_kept : 0 < length r → is_space (get_or r (length r - 1) 0) ≡ false

-- In `s` the bytes from the first that is kept up to the last that is kept.
trim_space-eq :
    (s : Bytes)
    → trim_start s < length s
    → trim_space s ≡ drop (trim_start s) (take (trim_end s (length s)) s)
unfolding trim_space
trim_space-eq s h = elim (Bool-cases (trim_start s == length s)) [
  | inl e ↦ absurd (ground arith)
  | inr e ↦ rw e refl
]

trim_space-blank : (s : Bytes) → trim_start s ≡ length s → trim_space s ≡ []
unfolding trim_space
trim_space-blank s h = ground arith

kept-IsTrimOf :
    (s : Bytes)
    → trim_start s < length s
    → IsTrimOf s (drop (trim_start s) (take (trim_end s (length s)) s))
kept-IsTrimOf s h = record {
  lead = take st s;
  tail = drop end s;
  splits = sym whole;
  lead_blank = all-take-trim_start s;
  tail_blank =
      rw (take_all (length s) s (omega arith)) at (all-drop-trim_end s (length s) (omega arith));
  first_kept = λ _.
      rw (first 0 (omega (arith, st_lt)))
        (let e : st + 0 ≡ st = omega arith in rw e (get_or-trim_start s h));
  last_kept = λ _. rw len (rw (first (end - st - 1) (omega (arith, st_lt))) (last st_lt));
}
  where
    st : ℕ
    st = trim_start s

    end : ℕ
    end = trim_end s (length s)

    st_lt : st < end
    st_lt = lt-trim_end s (length s) st h (get_or-trim_start s h)

    len : length (drop st (take end s)) ≡ end - st
    len = omega (arith, length-drop st (take end s), length-take end s, trim_end-le s (length s))

    whole : take st s ++ (drop st (take end s) ++ drop end s) ≡ s
    whole =
        rw
          (
            ← take-take st end s (omega (arith, st_lt)),
            ← append_assoc (take st (take end s)) (drop st (take end s)) (drop end s),
            take-append-drop st (take end s),
          )
          (take-append-drop end s)

    last : st < end → is_space (get_or s (st + (end - st - 1)) 0) ≡ false
    last b =
        let e : st + (end - st - 1) ≡ end - 1 = omega arith in
        rw e (get_or-trim_end s (length s) (omega arith))

    first : (i : ℕ) → st + i < end → get_or (drop st (take end s)) i 0 ≡ get_or s (st + i) 0
    first i b = get_or-drop st (take end s) i 0 ∙ get_or-take end s (st + i) 0 b

-- `TrimSpace` takes white space off both ends and nothing else: the text splits into white space,
-- the result and white space, and the result, unless empty, begins and ends with other bytes.
pub trim_space-IsTrimOf : (s : Bytes) → IsTrimOf s (trim_space s)
trim_space-IsTrimOf s = elim (dec_lt (trim_start s) (length s)) [
  | yes h ↦ rw (trim_space-eq s h) (kept-IsTrimOf s h)
  | no h ↦ rw (trim_space-blank s (omega (arith, trim_start-le s))) (record {
    lead = s;
    tail = [];
    splits = simp append-nil;
    lead_blank = rw (take_all (trim_start s) s (omega arith)) at (all-take-trim_start s);
    tail_blank = refl;
    first_kept = λ b. elim b [ ];
    last_kept = λ b. elim b [ ];
  })
]
