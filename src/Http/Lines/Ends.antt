-- ===== src/Http/Lines/Ends.antt =====
-- http.go: reading a header comes to an end, with lines that may be passed on.
use cow.Base.{
  ℕ, zero, suc, ◌≤◌, ◌<◌, ◌≡◌, sym, subst, ◌∙◌, ◌⊎◌, inl, inr, Option, none, some, List, [], ◌∷◌,
  ◌++◌, arith, length, All, Bytes,
}
use mathlib.Core.List.{append_assoc, append-nil}
use cow.Util.OneLine.{IsOneLine}
use cow.Http.Header.{Header, Taken, taken, rejected, take_line, unknown_len}
use cow.Http.Header.Forwarded.{IsForwarded, Adds, take_line-Adds}
use cow.Http.Lines.Shrinks.{Progress, read_continued-Progress}
use cow.Http.Lines.{
  LineReader, IsLines, LineRead, line_read, line_failed, HeaderEnd, header_ok, header_bad,
  read_continued_line_slice, on_taken, on_line, header_lines, parse_header,
}

unfoldable pub all_of : List Bytes → Bytes
all_of [] = []
all_of (l ∷ ls) = l ++ all_of ls

-- The raw bytes got lines that may be passed on, and nothing else.
unfoldable pub IsExtended : Bytes → Bytes → Type 0
IsExtended raw raw' = (lines : List Bytes) × (All IsForwarded lines) × (raw' ≡ raw ++ all_of lines)

-- The parsing of a header came to an end, with at most `k` bytes left.
unfoldable pub Ended : {R : Type 0} → (R → Bytes) → ℕ → Bytes → Option (HeaderEnd × R) → Type 0
Ended left k raw none = ⊥
Ended left k raw (some (header_ok h raw', r)) = (IsExtended raw raw') × (length (left r) ≤ k)
Ended left k raw (some (header_bad e raw', r)) = (IsExtended raw raw') × (length (left r) ≤ k)

extend_none : (raw : Bytes) → IsExtended raw raw
unfolding IsExtended all_of
extend_none raw = ([], tt, simp append-nil)

extend_first :
    (raw line raw' : Bytes) → IsForwarded line → IsExtended (raw ++ line) raw' → IsExtended raw raw'
unfolding IsExtended all_of
extend_first raw line raw' f (lines, fs, e) =
    (line ∷ lines, (f, fs), e ∙ append_assoc raw line (all_of lines))

added_to :
    (raw raw' raw'' : Bytes)
    → (raw' ≡ raw) ⊎ ((line : Bytes) × (IsForwarded line) × (raw' ≡ raw ++ line))
    → IsExtended raw' raw''
    → IsExtended raw raw''
added_to raw raw' raw'' (inl e) x = subst (λ k. IsExtended k raw'') e x
added_to raw raw' raw'' (inr (line, f, e)) x =
    extend_first raw line raw'' f (subst (λ k. IsExtended k raw'') e x)

-- What holds of the rest of the lines holds of all.
Ended-more :
    {R : Type 0} (left : R → Bytes) (k n : ℕ) (raw raw' : Bytes) (x : Option (HeaderEnd × R))
    → n ≤ k
    → (raw' ≡ raw) ⊎ ((line : Bytes) × (IsForwarded line) × (raw' ≡ raw ++ line))
    → Ended left n raw' x
    → Ended left k raw x
unfolding Ended
Ended-more left k n raw raw' none b a x = x
Ended-more left k n raw raw' (some (header_ok h raw'', r)) b a (x, l) =
    (added_to raw raw' raw'' a x, omega arith)
Ended-more left k n raw raw' (some (header_bad e raw'', r)) b a (x, l) =
    (added_to raw raw' raw'' a x, omega arith)

on_taken-Ended :
    {R : Type 0} (left : R → Bytes) (k : ℕ) (raw : Bytes) (t : Taken) (r : R)
    (go : Header → Bytes → R → Option (HeaderEnd × R))
    → length (left r) ≤ k
    → Adds raw t
    → ((h' : Header) (raw' : Bytes) → Ended left (length (left r)) raw' (go h' raw' r))
    → Ended left k raw (on_taken t r go)
unfolding Ended Adds on_taken
on_taken-Ended left k raw (rejected e raw') r go b a next =
    (subst (IsExtended raw) (sym a) (extend_none raw), b)
on_taken-Ended left k raw (taken h raw') r go b a next =
    Ended-more left k _ raw raw' (go h raw' r) b a (next h raw')

not_empty : (c : ℕ) (line : Bytes) → ((c ∷ line) ≡ []) ⊎ IsOneLine (c ∷ line) → IsOneLine (c ∷ line)
not_empty c line (inl e) = absurd (cc e)
not_empty c line (inr o) = o

module _ {R : Type 0} (reader : LineReader R) (left : R → Bytes) (law : IsLines reader left) where
  on_line-Ended :
      (h : Header) (raw : Bytes) (r : R) (x : Option (LineRead × R))
      (go : Header → Bytes → R → Option (HeaderEnd × R))
      → Progress reader left law r x
      → ((h' : Header) (raw' : Bytes) (r1 : R)
          → length (left r1) < length (left r)
          → Ended left (length (left r1)) raw' (go h' raw' r1))
      → Ended left (length (left r)) raw (on_line reader h raw x go)
  unfolding Progress Ended on_line
  on_line-Ended h raw r none go p next = p
  on_line-Ended h raw r (some (line_failed e, r1)) go p next = (extend_none raw, p)
  on_line-Ended h raw r (some (line_read [], r1)) go (p, o) next =
      (extend_none raw, omega (arith, p))
  on_line-Ended h raw r (some (line_read (c ∷ line), r1)) go (p, o) next =
      on_taken-Ended left _ raw (take_line h raw (c ∷ line)) r1 go (omega (arith, p))
        (take_line-Adds h raw (c ∷ line) (not_empty c line o)) (λ h' raw'. next h' raw' r1 p)

  header_lines-Ended :
      (fuel : ℕ) (h : Header) (raw : Bytes) (r : R)
      → length (left r) < fuel
      → Ended left (length (left r)) raw (header_lines reader fuel h raw r)
  unfolding header_lines read_continued_line_slice
  header_lines-Ended zero h raw r b = absurd (omega arith)
  header_lines-Ended (suc fuel) h raw r b =
      on_line-Ended h raw r _ _ (read_continued-Progress reader left law (suc fuel) r b)
        (λ h' raw' r1 l. header_lines-Ended fuel h' raw' r1 (omega (arith, l, b)))

  -- Reading a header comes to an end, with a result: as many rounds as there are bytes, and one
  -- more, are enough for all its loops. All that is put into the raw bytes is lines whose
  -- field is none of the connection's own.
  pub parse_header-Ended :
      (fuel : ℕ) (h : Header) (raw : Bytes) (r : R)
      → length (left r) < fuel
      → Ended left (length (left r)) raw (parse_header reader fuel h raw r)
  unfolding parse_header
  parse_header-Ended fuel h raw r b =
      header_lines-Ended fuel (record h { cont_len = unknown_len }) raw r b
