-- ===== src/Tests/Stream.antt =====
-- Readers over a list of bytes, which keep the laws that the theorems on transfers and on headers
-- ask of the buffered reader.
use cow.Base.{
  ℕ, zero, suc, ◌≤◌, ◌<◌, ◌≡◌, refl, sym, ap, ap₂, subst, ◌∙◌, ◌≢◌, inl, inr, true, Option, none,
  some, [], ◌∷◌, ◌++◌, arith, leb, ◌==◌, if◌then◌else◌, ==_iff, ==_refl, Bool-cases, Option-cases,
  eq_of_some, length, take, drop, take-append-drop, length-take, Bytes, index_byte,
}
use cow.Body.{BufReader, ReadResult, IoError, eof, IsStream, Gives, some_bytes, last_bytes}
use cow.Util.OneLine.{IsOneLine}
use cow.Http.Lines.{LineReader, IsLines}

abbrev pub buffer_size : ℕ
buffer_size = 64

-- Up to `n` bytes, and the end with nothing more to come.
list_read : ℕ → Bytes → ReadResult × Bytes
list_read n [] = (([], some eof), [])
list_read n (c ∷ s) = ((take n (c ∷ s), none), drop n (c ∷ s))

list_peek : ℕ → Bytes → ReadResult × Bytes
list_peek c s = elim (index_byte c s) [
  | none ↦ ((s, some eof), s)
  | some i ↦ ((take (suc i) s, none), s)
]

list_slice : ℕ → Bytes → ReadResult × Bytes
list_slice c s = elim (index_byte c s) [
  | none ↦ ((s, some eof), [])
  | some i ↦ ((take (suc i) s, none), drop (suc i) s)
]

list_fill : ℕ → Bytes → ReadResult × Bytes
list_fill n s = if leb n (length s) then ((take n s, none), drop n s) else ((s, some eof), [])

unfoldable pub list_reader : BufReader Bytes
unfolding list_read list_peek list_slice list_fill
list_reader = record {
  read_n = list_read;
  read_next = list_read buffer_size;
  peek_slice = list_peek;
  read_slice = list_slice;
  skip = drop;
  read_full = list_fill;
}

abbrev pub all_left : Bytes → Bytes
all_left s = s

list_read-Gives : (n : ℕ) (s : Bytes) → 0 < n → Gives all_left n s (list_read n s)
unfolding list_read
list_read-Gives n [] h = last_bytes [] [] refl refl (omega arith)
list_read-Gives zero (c ∷ s) h = absurd (omega arith)
list_read-Gives (suc n) (c ∷ s) h =
    some_bytes (c ∷ take n s) (drop n s) (ap (λ k. c ∷ k) (sym (take-append-drop n s)))
      (omega arith) (omega (arith, length-take n s))

index_byte-here :
    (c : ℕ) (s rest : Bytes)
    → index_byte c s ≡ none
    → (index_byte c (s ++ c ∷ rest) ≡ some (length s))
      × (take (suc (length s)) (s ++ c ∷ rest) ≡ s ++ c ∷ [])
unfolding index_byte
index_byte-here c [] rest e = (rw (==_refl c, index_byte) refl, refl)
index_byte-here c (x ∷ s) rest e = elim (Bool-cases (x == c)) [
  | inl f ↦ absurd (cc (rw (f, index_byte) at e))
  | inr f ↦ elim (Option-cases (index_byte c s)) [
    | inr (i, g) ↦ absurd (cc (rw (f, g, index_byte) at e))
    | inl g ↦
        let (p, q) = index_byte-here c s rest g in (rw (f, p, index_byte) refl, ap (λ k. x ∷ k) q)
  ]
]

list_next :
    (s : Bytes)
    → s ≢ []
    → (b : Bytes) × (s' : Bytes) × (list_read buffer_size s ≡ ((b, none), s'))
      × (s ≡ b ++ s')
      × (0 < length b)
      × (length b ≤ buffer_size)
unfolding list_read
list_next [] h = absurd (h refl)
list_next (c ∷ s) h = (
  c ∷ take 63 s,
  drop 63 s,
  refl,
  ap (λ k. c ∷ k) (sym (take-append-drop 63 s)),
  omega arith,
  omega (arith, length-take 63 s),
)

list_peek-here :
    (c : ℕ) (s rest : Bytes)
    → index_byte c s ≡ none
    → list_peek c (s ++ c ∷ rest) ≡ ((s ++ c ∷ [], none), s ++ c ∷ rest)
unfolding list_peek
list_peek-here c s rest e =
    let (p, q) = index_byte-here c s rest e in
    rw (p, list_peek) (ap (λ k. ((k, none), s ++ c ∷ rest)) q)

list_fill-within :
    (n : ℕ) (s : Bytes)
    → n ≤ length s
    → (s' : Bytes) × (list_fill n s ≡ ((take n s, none), s')) × (s' ≡ drop n s)
unfolding list_fill
list_fill-within n s h =
    let e : leb n (length s) ≡ true = ground arith in (drop n s, rw (e, list_fill) refl, refl)

pub list_reader-IsStream : IsStream list_reader all_left buffer_size
unfolding list_reader list_read
list_reader-IsStream = record {
  reads = list_read-Gives;
  reads_next = list_next;
  ends = λ r e.
      subst (λ k. (r' : Bytes) × (list_read buffer_size k ≡ (([], some eof), r')) × (r' ≡ []))
        (sym e) ([], refl, refl);
  peeks = λ c r s rest e h b. (
    r,
    subst (λ k. list_peek c k ≡ ((s ++ c ∷ [], none), k)) (sym e) (list_peek-here c s rest h),
    refl,
  );
  skips = λ n r. refl;
  fills = list_fill-within;
}

-- The byte read last, which may be put back, and the bytes to come.
abbrev pub Cursor : Type 0
Cursor = ℕ × Bytes

abbrev pub to_come : Cursor → Bytes
to_come (b, s) = s

cursor_slice : Cursor → ReadResult × Cursor
cursor_slice (b, s) = elim (index_byte 10 s) [
  | none ↦ ((s, some eof), (b, []))
  | some i ↦ ((take (suc i) s, none), (b, drop (suc i) s))
]

cursor_peek : Cursor → Option ℕ × Cursor
cursor_peek (b, []) = (none, (b, []))
cursor_peek (b, c ∷ s) = (some c, (b, c ∷ s))

cursor_byte : Cursor → Option ℕ × Cursor
cursor_byte (b, []) = (none, (b, []))
cursor_byte (b, c ∷ s) = (some c, (c, s))

unfoldable pub line_reader : LineReader Cursor
unfolding cursor_slice cursor_peek cursor_byte
line_reader = record {
  read_slice = cursor_slice;
  buffered = λ r. length (to_come r);
  peek_one = cursor_peek;
  read_byte = cursor_byte;
  unread_byte = λ (b, s). (b, b ∷ s);
}

result_eq :
    {l l' : Bytes} {e e' : Option IoError} {r r' : Cursor}
    → ◌≡◌ {A = ReadResult × Cursor} ((l, e), r) ((l', e'), r')
    → (l ≡ l') × (e ≡ e') × (r ≡ r')
result_eq h = (
  ap (λ (q : ReadResult × Cursor). (q.0).0) h,
  ap (λ (q : ReadResult × Cursor). (q.0).1) h,
  ap (λ (q : ReadResult × Cursor). q.1) h,
)

take_to_lf-IsOneLine : (s : Bytes) (i : ℕ) → index_byte 10 s ≡ some i → IsOneLine (take (suc i) s)
unfolding index_byte IsOneLine
take_to_lf-IsOneLine [] i e = absurd (cc e)
take_to_lf-IsOneLine (x ∷ s) i e = elim (Bool-cases (x == 10)) [
  | inl f ↦
      subst (λ k. IsOneLine (take (suc k) (x ∷ s))) (eq_of_some (rw (f, index_byte) at e))
        ([], tt, ap (λ c. c ∷ []) ((==_iff x 10).0 f))
  | inr f ↦ elim (Option-cases (index_byte 10 s)) [
    | inl g ↦ absurd (cc (rw (f, g, index_byte) at e))
    | inr (k, g) ↦
        let (body, a, h) = take_to_lf-IsOneLine s k g in
        subst (λ k. IsOneLine (take (suc k) (x ∷ s))) (eq_of_some (rw (f, g, index_byte) at e))
          (x ∷ body, (ground arith, a), ap (λ l. x ∷ l) h)
  ]
]

slice_kept :
    (b : ℕ) (s line : Bytes) (r' : Cursor)
    → cursor_slice (b, s) ≡ ((line, none), r')
    → (s ≡ line ++ to_come r') × IsOneLine line
unfolding cursor_slice
slice_kept b s line r' h = elim (Option-cases (index_byte 10 s)) [
  | inl e ↦ absurd (cc ((result_eq (rw (e, cursor_slice) at h)).1))
  | inr (i, e) ↦
      let (p, q, x) = result_eq (rw (e, cursor_slice) at h) in
      (
        sym (take-append-drop (suc i) s) ∙ ap₂ ◌++◌ p (ap to_come x),
        subst IsOneLine p (take_to_lf-IsOneLine s i e),
      )
]

slice_fails :
    (b : ℕ) (s line : Bytes) (er : IoError) (r' : Cursor)
    → cursor_slice (b, s) ≡ ((line, some er), r')
    → length (to_come r') ≤ length s
unfolding cursor_slice
slice_fails b s line er r' h = elim (Option-cases (index_byte 10 s)) [
  | inl e ↦
      let (p, q, x) = result_eq (rw (e, cursor_slice) at h) in
      subst (λ k. length (to_come k) ≤ length s) x (omega arith)
  | inr (i, e) ↦ absurd (cc ((result_eq (rw (e, cursor_slice) at h)).1))
]

byte_eq :
    {o o' : Option ℕ} {r r' : Cursor}
    → ◌≡◌ {A = Option ℕ × Cursor} (o, r) (o', r')
    → (o ≡ o') × (r ≡ r')
byte_eq h = (ap (λ (q : Option ℕ × Cursor). q.0) h, ap (λ (q : Option ℕ × Cursor). q.1) h)

byte_read :
    (b : ℕ) (s : Bytes) (c : ℕ) (r' : Cursor)
    → cursor_byte (b, s) ≡ (some c, r')
    → (s ≡ c ∷ to_come r') × (to_come (line_reader.unread_byte r') ≡ c ∷ to_come r')
unfolding cursor_byte line_reader
byte_read b [] c r' h = absurd (cc ((byte_eq h).0))
byte_read b (x ∷ s) c r' h =
    let (p, q) = byte_eq h in
    (
      ap₂ ◌∷◌ (eq_of_some p) (ap to_come q),
      sym (ap (λ (k : Cursor). k.0 ∷ k.1) q) ∙ ap₂ ◌∷◌ (eq_of_some p) (ap to_come q),
    )

no_byte_read : (b : ℕ) (s : Bytes) (r' : Cursor) → cursor_byte (b, s) ≡ (none, r') → to_come r' ≡ s
unfolding cursor_byte
no_byte_read b [] r' h = sym (ap to_come ((byte_eq h).1))
no_byte_read b (x ∷ s) r' h = absurd (cc ((byte_eq h).0))

peek_kept : (b : ℕ) (s : Bytes) → to_come ((cursor_peek (b, s)).1) ≡ s
unfolding cursor_peek
peek_kept b [] = refl
peek_kept b (x ∷ s) = refl

pub line_reader-IsLines : IsLines line_reader to_come
unfolding line_reader
line_reader-IsLines = record {
  slices = λ (b, s) line r' h. slice_kept b s line r' h;
  fails = λ (b, s) line er r' h. slice_fails b s line er r' h;
  peeks = λ (b, s). peek_kept b s;
  reads = λ (b, s) c r' h. byte_read b s c r' h;
  no_byte = λ (b, s) r' h. no_byte_read b s r' h;
}
