-- ===== src/Util/OneLine.antt =====
-- http.go: what `ReadSlice('\n')` gives is one line, and so is what the code makes of it.
use cow.Base.{
  ℕ, zero, suc, ◌+◌, ◌≤◌, ◌<◌, ◌≡◌, refl, sym, ap, subst, ◌∙◌, ◌≢◌, inl, inr, false, some, [], ◌∷◌,
  ◌++◌, arith, dec_lt, ◌==◌, Bool-cases, Option-cases, eq_of_some, length, get_or, take, drop,
  length-take, length-drop, All, get_or-append, length-snoc, drop-append_le, drop_all, Bytes,
  index_byte,
}
use mathlib.Core.List.{append_assoc}
use cow.Util.Space.{is_space, trim_start, trim_end, trim_space, trim_trailing_space}
use cow.Util.Space.Trim.{trim_end-le}
use cow.Util.Case.{ascii_to_lower}

-- A text without a line feed.
abbrev pub IsPart : Bytes → Type 0
IsPart s = All (λ c. c ≢ 10) s

-- A text with one line feed, at its end.
unfoldable pub IsOneLine : Bytes → Type 0
IsOneLine s = (body : Bytes) × IsPart body × (s ≡ body ++ 10 ∷ [])

pub IsPart-append : (s t : Bytes) → IsPart s → IsPart t → IsPart (s ++ t)
IsPart-append [] t a b = b
IsPart-append (c ∷ s) t (n, a) b = (n, IsPart-append s t a b)

pub IsPart-take : (k : ℕ) (s : Bytes) → IsPart s → IsPart (take k s)
IsPart-take zero s a = tt
IsPart-take (suc k) [] a = tt
IsPart-take (suc k) (c ∷ s) (n, a) = (n, IsPart-take k s a)

pub IsPart-drop : (k : ℕ) (s : Bytes) → IsPart s → IsPart (drop k s)
IsPart-drop zero s a = a
IsPart-drop (suc k) [] a = tt
IsPart-drop (suc k) (c ∷ s) (n, a) = IsPart-drop k s a

pub ascii_to_lower-IsPart : (s : Bytes) → IsPart s → IsPart (ascii_to_lower s)
unfolding ascii_to_lower
ascii_to_lower-IsPart [] a = tt
ascii_to_lower-IsPart (c ∷ s) (n, a) = (ground arith, ascii_to_lower-IsPart s a)

pub IsOneLine-snoc : (s : Bytes) → IsPart s → IsOneLine (s ++ 10 ∷ [])
unfolding IsOneLine
IsOneLine-snoc s a = (s, a, refl)

-- A text without a line feed in front of a line makes a line with it.
pub IsOneLine-append : (s t : Bytes) → IsPart s → IsOneLine t → IsOneLine (s ++ t)
unfolding IsOneLine
IsOneLine-append s t a (body, b, e) =
    (s ++ body, IsPart-append s body a b, ap (λ k. s ++ k) e ∙ sym (append_assoc s body (10 ∷ [])))

take-append_le : (k : ℕ) (s t : Bytes) → k ≤ length s → take k (s ++ t) ≡ take k s
take-append_le zero s t h = refl
take-append_le (suc k) [] t h = absurd (omega arith)
take-append_le (suc k) (c ∷ s) t h = ap (λ l. c ∷ l) (take-append_le k s t (omega arith))

trim_end_at : (s : Bytes) (k : ℕ) → get_or s k 0 ≡ 10 → trim_end s (suc k) ≤ k
unfolding trim_end is_space
trim_end_at s k e = rw e (trim_end-le s k)

-- The loop from the right leaves the line feed.
module _ (body : Bytes) where
  abbrev line : Bytes
  line = body ++ 10 ∷ []

  trim_end_line : trim_end line (length line) ≤ length body
  trim_end_line =
      let n : suc (length body) ≡ length line = omega (arith, length-snoc body 10) in
      subst (λ k. trim_end line k ≤ length body) n
        (trim_end_at line (length body) (get_or-append body 10 [] 0))

  kept_line : take (trim_end line (length line)) line ≡ take (trim_end line (length line)) body
  kept_line = take-append_le _ body (10 ∷ []) trim_end_line

  trim_trailing_line : IsPart body → IsPart (trim_trailing_space line)
  unfolding trim_trailing_space
  trim_trailing_line a = subst IsPart (sym kept_line) (IsPart-take _ body a)

  trim_line : IsPart body → IsPart (trim_space line)
  unfolding trim_space trim_trailing_space
  trim_line a = elim (Bool-cases (trim_start line == length line)) [
    | inl e ↦ rw e tt
    | inr e ↦ rw e (IsPart-drop (trim_start line) _ (trim_trailing_line a))
  ]

  -- The value that is kept stands in front of the line feed.
  trim_fits :
      (length (trim_space line) == 0) ≡ false
      → trim_start line + length (trim_space line) ≤ length body
  unfolding trim_space
  trim_fits n = elim (Bool-cases (trim_start line == length line)) [
    | inl e ↦ absurd (cc (rw e at n))
    | inr e ↦
        let size = rw e at n in
        rw e (
          ground (
            arith,
            size,
            trim_end_line,
            length-drop (trim_start line) (take (trim_end line (length line)) line),
            length-take (trim_end line (length line)) line,
            length-snoc body 10,
          ))
  ]

pub trim_space-IsPart : (s : Bytes) → IsOneLine s → IsPart (trim_space s)
unfolding IsOneLine
trim_space-IsPart s (body, a, e) = subst (λ k. IsPart (trim_space k)) (sym e) (trim_line body a)

pub trim_trailing_space-IsPart : (s : Bytes) → IsOneLine s → IsPart (trim_trailing_space s)
unfolding IsOneLine
trim_trailing_space-IsPart s (body, a, e) =
    subst (λ k. IsPart (trim_trailing_space k)) (sym e) (trim_trailing_line body a)

-- What is behind a place in a line, trimmed.
pub trim_space-drop-IsPart : (f : ℕ) (s : Bytes) → IsOneLine s → IsPart (trim_space (drop f s))
unfolding IsOneLine trim_space
trim_space-drop-IsPart f s (body, a, e) = elim (dec_lt (length body) f) [
  | yes h ↦
      let gone : drop f s ≡ [] = drop_all f s (omega (arith, ap length e, length-snoc body 10)) in
      subst (λ k. IsPart (trim_space k)) (sym gone) tt
  | no h ↦
      let rest : drop f s ≡ drop f body ++ 10 ∷ [] =
        ap (drop f) e ∙ drop-append_le f body (10 ∷ []) (omega arith) in
      subst (λ k. IsPart (trim_space k)) (sym rest) (trim_line (drop f body) (IsPart-drop f body a))
]

pub IsPart-take_line : (k : ℕ) (s : Bytes) → IsOneLine s → k < length s → IsPart (take k s)
unfolding IsOneLine
IsPart-take_line k s (body, a, e) h =
    let fits : k ≤ length body = omega (arith, ap length e, length-snoc body 10) in
    subst IsPart (sym (ap (take k) e ∙ take-append_le k body (10 ∷ []) fits)) (IsPart-take k body a)

-- A byte other than a line feed is found in front of it.
index_byte-line :
    (c : ℕ) (body : Bytes) (i : ℕ)
    → (10 == c) ≡ false
    → index_byte c (body ++ 10 ∷ []) ≡ some i
    → i < length body
unfolding index_byte
index_byte-line c [] i n e = absurd (cc (rw n at e))
index_byte-line c (x ∷ xs) i n e = elim (Bool-cases (x == c)) [
  | inl f ↦ omega (arith, eq_of_some (rw (f, index_byte) at e))
  | inr f ↦ elim (Option-cases (index_byte c (xs ++ 10 ∷ []))) [
    | inl g ↦ absurd (cc (rw (f, g, index_byte) at e))
    | inr (k, g) ↦
        omega (arith, eq_of_some (rw (f, g, index_byte) at e), index_byte-line c xs k n g)
  ]
]

-- A line in which as many bytes of the value as it has, none of them a line feed, stand instead
-- of it.
pub put-IsOneLine :
    (line val : Bytes) (i : ℕ)
    → IsOneLine line
    → index_byte b':' line ≡ some i
    → (length (trim_space (drop (i + 1) line)) == 0) ≡ false
    → length val ≡ length (trim_space (drop (i + 1) line))
    → IsPart val
    → let start = i + 1 + trim_start (drop (i + 1) line) in
      IsOneLine (take start line ++ (val ++ drop (start + length val) line))
unfolding IsOneLine
put-IsOneLine line val i (body, a, e) found n l v =
    let below = index_byte-line b':' body i refl (ap (index_byte b':') (sym e) ∙ found) in
    let rest : drop (i + 1) line ≡ drop (i + 1) body ++ 10 ∷ [] =
      ap (drop (i + 1)) e ∙ drop-append_le (i + 1) body (10 ∷ []) (omega arith) in
    let start : ℕ = i + 1 + trim_start (drop (i + 1) line) in
    let fits =
      trim_fits (drop (i + 1) body) (subst (λ k. (length (trim_space k) == 0) ≡ false) rest n) in
    let fits' =
      subst (λ k. trim_start k + length (trim_space k) ≤ length (drop (i + 1) body)) (sym rest)
        fits in
    let within : start + length val ≤ length body =
      omega (arith, fits', l, length-drop (i + 1) body) in
    let behind : drop (start + length val) line ≡ drop (start + length val) body ++ 10 ∷ [] =
      ap (drop (start + length val)) e
      ∙ drop-append_le (start + length val) body (10 ∷ []) within in
    let front : IsPart (take start line) =
      subst IsPart (sym (ap (take start) e ∙ take-append_le start body (10 ∷ []) (omega arith)))
        (IsPart-take start body a) in
    IsOneLine-append (take start line) (val ++ drop (start + length val) line) front (
      IsOneLine-append val (drop (start + length val) line) v
        (subst IsOneLine (sym behind) (IsOneLine-snoc _ (IsPart-drop _ body a))))

pub IsOneLine-length : (s : Bytes) → IsOneLine s → 0 < length s
unfolding IsOneLine
IsOneLine-length s (body, a, e) = omega (arith, ap length e, length-snoc body 10)
