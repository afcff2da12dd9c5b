-- ===== src/Http/Lines/Shrinks.antt =====
-- http.go: `skipSpace` and `readContinuedLineSlice` come to an end, with fewer bytes to come and
-- one line.
use cow.Base.{
  ℕ, zero, suc, ◌+◌, ◌≤◌, ◌<◌, ◌≡◌, refl, ap, subst, ◌≢◌, ◌⊎◌, inl, inr, Option, none, some, [],
  ◌∷◌, ◌++◌, arith, ltb, ◌==◌, Bool-cases, eq_of_some, length, get_or, length-append, Bytes,
}
use cow.Body.{ReadResult}
use cow.Util.Space.{trim_space, trim_trailing_space}
use cow.Util.OneLine.{
  IsOneLine, IsPart, IsPart-append, IsOneLine-append, IsOneLine-length, trim_space-IsPart,
  trim_trailing_space-IsPart,
}
use cow.Http.Lines.{
  LineReader, IsLines, LineRead, line_read, line_failed, on_byte, is_blank, skip_space,
  on_continuation, on_spaces, continued_lines, joined_line, read_on, with_peek, after_slice,
  with_first, first_line, no_continuation, read_continued_line_slice,
}

-- A line that was read is one line, or there is none.
unfoldable pub IsLine : LineRead → Type 0
IsLine (line_read line) = (line ≡ []) ⊎ IsOneLine line
IsLine (line_failed e) = Unit

first_line-IsLine : (line : Bytes) (x : LineRead) → first_line line ≡ some x → IsLine x
unfolding first_line IsLine
first_line-IsLine line x e = elim (Bool-cases (length (trim_space line) == 0)) [
  | inl y ↦ elim (Bool-cases (ltb 2 (length line))) [
    | inl z ↦ subst IsLine (eq_of_some (rw (y, z, first_line) at e)) tt
    | inr z ↦ subst IsLine (eq_of_some (rw (y, z, first_line) at e)) (inl refl)
  ]
  | inr y ↦ elim (Bool-cases (is_blank (get_or line 0 0))) [
    | inl z ↦ subst IsLine (eq_of_some (rw (y, z, first_line) at e)) tt
    | inr z ↦ absurd (cc (rw (y, z, first_line) at e))
  ]
]

module _ {R : Type 0} (reader : LineReader R) (left : R → Bytes) (law : IsLines reader left) where
  Skipped : R → ℕ → Option (ℕ × R) → Type 0
  Skipped r n none = ⊥
  Skipped r n (some (n', r')) = length (left r') + n' ≤ length (left r) + n

  on_byte-Skipped :
      (r : R) (n : ℕ) (x : Option ℕ × R) (go : R → Option (ℕ × R))
      → reader.read_byte r ≡ x
      → ((r1 : R) → length (left r) ≡ suc (length (left r1)) → Skipped r n (go r1))
      → Skipped r n (on_byte (reader.unread_byte) n x go)
  unfolding Skipped on_byte
  on_byte-Skipped r n (none, r1) go e next = omega (arith, ap length (law.no_byte r r1 e))
  on_byte-Skipped r n (some c, r1) go e next = elim (Bool-cases (is_blank c)) [
    | inl b ↦ rw b (next r1 (ap length ((law.reads r c r1 e).0)))
    | inr b ↦
        rw b (omega (arith, ap length ((law.reads r c r1 e).0), ap length ((law.reads r c r1 e).1)))
  ]

  skip_space-Skipped :
      (fuel n : ℕ) (r : R) → length (left r) < fuel → Skipped r n (skip_space reader fuel n r)
  unfolding skip_space Skipped
  skip_space-Skipped zero n r h = absurd (omega arith)
  skip_space-Skipped (suc fuel) n r h =
      on_byte-Skipped r n _ _ refl
        (λ r1 e. fewer r r1 n _ e (skip_space-Skipped fuel (n + 1) r1 (omega (arith, e))))
    where
      fewer :
          (r r1 : R) (n : ℕ) (x : Option (ℕ × R))
          → length (left r) ≡ suc (length (left r1))
          → Skipped r1 (n + 1) x
          → Skipped r n x
      fewer r r1 n none e s = s
      fewer r r1 n (some (n', r')) e s = omega (arith, e, s)

  -- A result of which `Q` holds, with no more bytes to come.
  Shrunk : {A : Type 0} → (A → Type 0) → R → Option (A × R) → Type 0
  Shrunk Q r none = ⊥
  Shrunk Q r (some (b, r')) = (length (left r') ≤ length (left r)) × Q b

  Shrunk-more :
      {A : Type 0} (Q : A → Type 0) (r r1 : R) (x : Option (A × R))
      → length (left r1) ≤ length (left r)
      → Shrunk Q r1 x
      → Shrunk Q r x
  unfolding Shrunk
  Shrunk-more Q r r1 none h s = s
  Shrunk-more Q r r1 (some (b, r')) h (l, q) = (omega (arith, h, l), q)

  on_continuation-Shrunk :
      (buf : Bytes) (r r0 : R) (x : ReadResult × R) (go : Bytes → R → Option (Bytes × R))
      → IsPart buf
      → reader.read_slice r ≡ x
      → length (left r) < length (left r0)
      → ((b : Bytes) (r1 : R)
          → IsPart b
          → length (left r1) < length (left r0)
          → Shrunk IsPart r0 (go b r1))
      → Shrunk IsPart r0 (on_continuation reader buf x go)
  unfolding Shrunk on_continuation
  on_continuation-Shrunk buf r r0 ((line, some er), r1) go part e h next =
      (omega (arith, law.fails r line er r1 e), part)
  on_continuation-Shrunk buf r r0 ((line, none), r1) go part e h next =
      let (p, q) = law.slices r line r1 e in
      let trimmed = trim_trailing_space-IsPart line q in
      next (buf ++ (b' ' ∷ trim_trailing_space line)) r1
        (IsPart-append buf (b' ' ∷ trim_trailing_space line) part (not_lf, trimmed))
        (omega (arith, ap length p, length-append line (left r1), IsOneLine-length line q, h))
    where
      not_lf : ◌≢◌ {A = ℕ} b' ' 10
      not_lf k = absurd (omega (arith, k))

  on_spaces-Shrunk :
      (buf : Bytes) (r : R) (x : Option (ℕ × R)) (go : Bytes → R → Option (Bytes × R))
      → IsPart buf
      → Skipped r 0 x
      → ((b : Bytes) (r1 : R)
          → IsPart b
          → length (left r1) < length (left r)
          → Shrunk IsPart r (go b r1))
      → Shrunk IsPart r (on_spaces reader buf x go)
  unfolding Skipped Shrunk on_spaces
  on_spaces-Shrunk buf r none go part s next = s
  on_spaces-Shrunk buf r (some (zero, r1)) go part s next = (omega (arith, s), part)
  on_spaces-Shrunk buf r (some (suc n, r1)) go part s next =
      on_continuation-Shrunk buf r1 r _ go part refl (omega (arith, s)) next

  continued_lines-Shrunk :
      (fuel : ℕ) (buf : Bytes) (r : R)
      → IsPart buf
      → length (left r) < fuel
      → Shrunk IsPart r (continued_lines reader fuel buf r)
  unfolding continued_lines
  continued_lines-Shrunk zero buf r part h = absurd (omega arith)
  continued_lines-Shrunk (suc fuel) buf r part h =
      on_spaces-Shrunk buf r _ _ part (skip_space-Skipped (suc fuel) 0 r h) (λ b r1 q l.
        Shrunk-more IsPart r r1 _ (omega (arith, l))
          (continued_lines-Shrunk fuel b r1 q (omega (arith, l, h))))

  crlf-IsOneLine : IsOneLine (13 ∷ 10 ∷ [])
  unfolding IsOneLine
  crlf-IsOneLine = (13 ∷ [], ((λ k. absurd (omega (arith, k))), tt), refl)

  joined_line-Shrunk :
      (r : R) (x : Option (Bytes × R)) → Shrunk IsPart r x → Shrunk IsLine r (joined_line reader x)
  unfolding Shrunk joined_line IsLine
  joined_line-Shrunk r none s = s
  joined_line-Shrunk r (some (b, r1)) (l, part) =
      (l, inr (IsOneLine-append b (13 ∷ 10 ∷ []) part crlf-IsOneLine))

  read_on-Shrunk :
      (fuel : ℕ) (line : Bytes) (r : R)
      → IsOneLine line
      → length (left r) < fuel
      → Shrunk IsLine r (read_on reader fuel line r)
  unfolding read_on
  read_on-Shrunk fuel line r o h =
      joined_line-Shrunk r _ (continued_lines-Shrunk fuel _ r (trim_space-IsPart line o) h)

  with_peek-Shrunk :
      (fuel : ℕ) (line : Bytes) (r : R) (x : Option ℕ × R)
      → IsOneLine line
      → left (x.1) ≡ left r
      → length (left r) < fuel
      → Shrunk IsLine r (with_peek reader fuel line x)
  unfolding Shrunk with_peek IsLine
  with_peek-Shrunk fuel line r (peek, r1) o e h = elim (Bool-cases (no_continuation peek)) [
    | inl f ↦ rw f (omega (arith, ap length e), inr o)
    | inr f ↦ rw f (
        Shrunk-more IsLine r r1 _ (omega (arith, ap length e))
          (read_on-Shrunk fuel line r1 o (omega (arith, ap length e, h))))
  ]

  -- A line that was read, with some bytes less behind it.
  unfoldable pub Progress : R → Option (LineRead × R) → Type 0
  Progress r none = ⊥
  Progress r (some (line_read line, r')) =
      (length (left r') < length (left r)) × ((line ≡ []) ⊎ IsOneLine line)
  Progress r (some (line_failed e, r')) = length (left r') ≤ length (left r)

  Shrunk-Progress :
      (r r1 : R) (x : Option (LineRead × R))
      → length (left r1) < length (left r)
      → Shrunk IsLine r1 x
      → Progress r x
  unfolding Shrunk Progress IsLine
  Shrunk-Progress r r1 none h s = s
  Shrunk-Progress r r1 (some (line_read line, r')) h (l, o) = (omega (arith, h, l), o)
  Shrunk-Progress r r1 (some (line_failed e, r')) h (l, o) = omega (arith, h, l)

  first_line-Shrunk :
      (fuel : ℕ) (line : Bytes) (r : R) (x : Option LineRead)
      → first_line line ≡ x
      → IsOneLine line
      → length (left r) < fuel
      → Shrunk IsLine r (with_first reader fuel line x r)
  unfolding Shrunk with_first
  first_line-Shrunk fuel line r (some result) e o h = (omega arith, first_line-IsLine line result e)
  first_line-Shrunk fuel line r none e o h = elim (Bool-cases (ltb 0 (reader.buffered r))) [
    | inl f ↦ rw f (with_peek-Shrunk fuel line r (reader.peek_one r) o (law.peeks r) h)
    | inr f ↦ rw f (read_on-Shrunk fuel line r o h)
  ]

  after_slice-Progress :
      (fuel : ℕ) (r : R) (x : ReadResult × R)
      → reader.read_slice r ≡ x
      → length (left r) < fuel
      → Progress r (after_slice reader fuel x)
  unfolding Progress after_slice
  after_slice-Progress fuel r ((line, some er), r1) e h = law.fails r line er r1 e
  after_slice-Progress fuel r ((line, none), r1) e h =
      let (p, q) = law.slices r line r1 e in
      let less : length (left r1) < length (left r) =
        omega (arith, ap length p, length-append line (left r1), IsOneLine-length line q) in
      Shrunk-Progress r r1 _ less (first_line-Shrunk fuel line r1 _ refl q (omega (arith, less, h)))

  pub read_continued-Progress :
      (fuel : ℕ) (r : R)
      → length (left r) < fuel
      → Progress r (read_continued_line_slice reader fuel r)
  unfolding read_continued_line_slice
  read_continued-Progress fuel r h = after_slice-Progress fuel r _ refl h
