-- ===== src/Http/Lines.antt =====
-- http.go: `skipSpace`, `readContinuedLineSlice` and `parseHeader`. The reader is the buffered
-- reader of a third party: its operations are a record, and what the code relies on are the
-- fields of `IsLines`. A loop runs on fuel, `none` being its exhaustion.
pub mod Shrinks
pub mod Ends
use cow.Base.{
  ℕ, zero, suc, ◌+◌, ◌≤◌, ◌<◌, ◌≡◌, Bool, false, not, ◌||◌, Option, none, some, [], ◌∷◌, ◌++◌, ltb,
  ◌==◌, if◌then◌else◌, length, get_or, Bytes,
}
use cow.Util.Space.{trim_space, trim_trailing_space}
use cow.Body.{IoError, ReadResult}
use cow.Util.OneLine.{IsOneLine}
use cow.Http.Header.{
  Header, HeaderError, read_failed, malformed_end, start_with_space, unknown_len, take_line, Taken,
  taken, rejected,
}

-- `read_slice` is `ReadSlice('\n')` and `peek_one` is `Peek(1)`; `none` is an error.
pub record LineReader (R : Type 0) : Type 0 where
  pub read_slice : R → ReadResult × R
  pub buffered : R → ℕ
  pub peek_one : R → Option ℕ × R
  pub read_byte : R → Option ℕ × R
  pub unread_byte : R → R

-- `left` stands for the bytes to come. What is read up to a line feed holds one, at its end; a
-- byte that was read can be put back; an error or a peek puts no bytes in front.
pub record IsLines {R : Type 0} (reader : LineReader R) (left : R → Bytes) : Type 0 where
  pub slices :
      (r : R) (line : Bytes) (r' : R)
      → reader.read_slice r ≡ ((line, none), r')
      → (left r ≡ line ++ left r') × IsOneLine line
  pub fails :
      (r : R) (line : Bytes) (e : IoError) (r' : R)
      → reader.read_slice r ≡ ((line, some e), r')
      → length (left r') ≤ length (left r)
  pub peeks : (r : R) → left ((reader.peek_one r).1) ≡ left r
  pub reads :
      (r : R) (c : ℕ) (r' : R)
      → reader.read_byte r ≡ (some c, r')
      → (left r ≡ c ∷ left r') × (left (reader.unread_byte r') ≡ c ∷ left r')
  pub no_byte : (r r' : R) → reader.read_byte r ≡ (none, r') → left r' ≡ left r

is_blank : ℕ → Bool
is_blank b = b == b' ' || b == b'\t'

-- A line without the end of the header is never empty, so an empty one is nil.
pub data LineRead : Type 0 where
  line_read : Bytes → LineRead
  line_failed : HeaderError → LineRead

-- The rounds of `skipSpace`, one byte having been read.
abbrev on_byte : {R : Type 0} → (R → R) → ℕ → Option ℕ × R → (R → Option (ℕ × R)) → Option (ℕ × R)
unfolding is_blank
on_byte unread n (none, r) go = some (n, r)
on_byte unread n (some c, r) go = if not (is_blank c) then some (n, unread r) else go r

-- Whether the next line is known to be no continuation.
no_continuation : Option ℕ → Bool
unfolding is_blank
no_continuation none = false
no_continuation (some c) = not (is_blank c)

-- The first line, before what may continue it: a result, or `none` to read on.
unfoldable first_line : Bytes → Option LineRead
unfolding is_blank
first_line line =
    if length (trim_space line) == 0
    then some (if ltb 2 (length line) then line_failed malformed_end else line_read [])
    else if is_blank (get_or line 0 0)
    then some (line_failed start_with_space)
    else none

-- The lines that a round of the loop over the header comes to.
pub data HeaderEnd : Type 0 where
  header_ok : Header → Bytes → HeaderEnd
  header_bad : HeaderError → Bytes → HeaderEnd

abbrev on_taken :
    {R : Type 0}
    → Taken
    → R
    → (Header → Bytes → R → Option (HeaderEnd × R))
    → Option (HeaderEnd × R)
on_taken (rejected e raw) r go = some (header_bad e raw, r)
on_taken (taken h raw) r go = go h raw r

module _ {R : Type 0} (reader : LineReader R) where
  unfoldable pub skip_space : ℕ → ℕ → R → Option (ℕ × R)
  unfolding on_byte
  skip_space zero n r = none
  skip_space (suc fuel) n r =
      on_byte (reader.unread_byte) n (reader.read_byte r) (λ r'. skip_space fuel (n + 1) r')

  abbrev on_continuation :
      Bytes → ReadResult × R → (Bytes → R → Option (Bytes × R)) → Option (Bytes × R)
  on_continuation buf ((line, some e), r) go = some (buf, r)
  on_continuation buf ((line, none), r) go = go (buf ++ (b' ' ∷ trim_trailing_space line)) r

  -- The body of the loop over continuation lines, spaces having been skipped.
  abbrev on_spaces : Bytes → Option (ℕ × R) → (Bytes → R → Option (Bytes × R)) → Option (Bytes × R)
  on_spaces buf none go = none
  on_spaces buf (some (zero, r)) go = some (buf, r)
  on_spaces buf (some (suc n, r)) go = on_continuation buf (reader.read_slice r) go

  unfoldable pub continued_lines : ℕ → Bytes → R → Option (Bytes × R)
  unfolding on_spaces
  continued_lines zero buf r = none
  continued_lines (suc fuel) buf r =
      on_spaces buf (skip_space (suc fuel) 0 r) (λ buf' r'. continued_lines fuel buf' r')

  joined_line : Option (Bytes × R) → Option (LineRead × R)
  joined_line none = none
  joined_line (some (buf, r)) = some (line_read (buf ++ (13 ∷ 10 ∷ [])), r)

  read_on : ℕ → Bytes → R → Option (LineRead × R)
  unfolding joined_line
  read_on fuel line r = joined_line (continued_lines fuel (trim_space line) r)

  abbrev with_peek : ℕ → Bytes → Option ℕ × R → Option (LineRead × R)
  unfolding no_continuation read_on
  with_peek fuel line (peek, r) =
      if no_continuation peek then some (line_read line, r) else read_on fuel line r

  with_first : ℕ → Bytes → Option LineRead → R → Option (LineRead × R)
  unfolding with_peek read_on
  with_first fuel line (some result) r = some (result, r)
  with_first fuel line none r =
      if ltb 0 (reader.buffered r)
      then with_peek fuel line (reader.peek_one r)
      else read_on fuel line r

  after_slice : ℕ → ReadResult × R → Option (LineRead × R)
  unfolding first_line with_first
  after_slice fuel ((line, some e), r) = some (line_failed (read_failed e), r)
  after_slice fuel ((line, none), r) = with_first fuel line (first_line line) r

  unfoldable pub read_continued_line_slice : ℕ → R → Option (LineRead × R)
  unfolding after_slice
  read_continued_line_slice fuel r = after_slice fuel (reader.read_slice r)

  abbrev on_line :
      Header
      → Bytes
      → Option (LineRead × R)
      → (Header → Bytes → R → Option (HeaderEnd × R))
      → Option (HeaderEnd × R)
  unfolding on_taken
  on_line h raw none go = none
  on_line h raw (some (line_failed e, r)) go = some (header_bad e raw, r)
  on_line h raw (some (line_read [], r)) go = some (header_ok h raw, r)
  on_line h raw (some (line_read (c ∷ line), r)) go = on_taken (take_line h raw (c ∷ line)) r go

  unfoldable pub header_lines : ℕ → Header → Bytes → R → Option (HeaderEnd × R)
  unfolding on_line
  header_lines zero h raw r = none
  header_lines (suc fuel) h raw r =
      on_line h raw (read_continued_line_slice (suc fuel) r)
        (λ h' raw' r'. header_lines fuel h' raw' r')

  unfoldable pub parse_header : ℕ → Header → Bytes → R → Option (HeaderEnd × R)
  unfolding header_lines
  parse_header fuel h raw r = header_lines fuel (record h { cont_len = unknown_len }) raw r
