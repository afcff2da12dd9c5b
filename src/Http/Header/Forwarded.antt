-- ===== src/Http/Header/Forwarded.antt =====
-- http.go: which header lines are passed on.
use cow.Base.{
  ℕ, zero, suc, ◌+◌, ◌<◌, ◌≡◌, refl, sym, ap, subst, ◌∙◌, ◌⊎◌, inl, inr, false, not, ◌&&◌, Option,
  none, some, [], ◌∷◌, ◌++◌, arith, ◌==◌, Bool-cases, Option-cases, eq_of_some, length, take, drop,
  All, Bytes, codes, bytes_eq, index_byte, index, contains, Map, lookup,
}
use cow.Util.Case.{ascii_to_lower, ascii_to_lower_inplace}
use cow.Util.Case.Inplace.{ascii_inplace-eq-copy}
use cow.Util.ParseInt.{Result, ParseError, ok, err, parse_int_from_bytes}
use cow.Util.OneLine.{
  IsOneLine, IsPart, ascii_to_lower-IsPart, trim_space-drop-IsPart, put-IsOneLine,
}
use cow.Util.Space.{trim_start, trim_space}
use cow.Http.Header.{
  Header, Parsed, parsed, refused, hop_by_hop_header, split_header, Taken, taken, rejected, pass_on,
  value_put, after_parser, take_line, with_parser, with_split, header_parser, parse_connection,
  parse_content_encoding, parse_content_length, parse_content_type, parse_expect, parse_host,
  parse_keep_alive, parse_proxy_authorization, parse_transfer_encoding, parse_trailer,
  parse_upgrade, digits_of,
}

-- One line, whose field is none of the connection's own.
pub IsForwarded : Bytes → Type 0
IsForwarded line =
    IsOneLine line
    × (i : ℕ) × (index_byte b':' line ≡ some i)
    × (hop_by_hop_header (ascii_to_lower (take i line)) ≡ false)

-- The first place of a byte is a matter of the bytes up to it.
index_byte-take :
    (c : ℕ) (s t : Bytes) (i k : ℕ)
    → index_byte c s ≡ some i
    → i < k
    → (index_byte c (take k s ++ t) ≡ some i) × (take i (take k s ++ t) ≡ take i s)
unfolding index_byte
index_byte-take c [] t i k e h = absurd cc
index_byte-take c (x ∷ xs) t i zero e h = absurd (omega arith)
index_byte-take c (x ∷ xs) t i (suc k) e h = elim (Bool-cases (x == c)) [
  | inl f ↦
      subst
        (λ j.
          (index_byte c (x ∷ (take k xs ++ t)) ≡ some j)
          × (take j (x ∷ (take k xs ++ t)) ≡ take j (x ∷ xs)))
        (eq_of_some (rw (f, index_byte) at e)) (rw (f, index_byte) refl, refl)
  | inr f ↦ elim (Option-cases (index_byte c xs)) [
    | inl g ↦ absurd (cc (rw (f, g, index_byte) at e))
    | inr (j, g) ↦
        let at : suc j ≡ i = eq_of_some (rw (f, g, index_byte) at e) in
        let (p, q) = index_byte-take c xs t j k g (omega (arith, at)) in
        subst
          (λ j.
            (index_byte c (x ∷ (take k xs ++ t)) ≡ some j)
            × (take j (x ∷ (take k xs ++ t)) ≡ take j (x ∷ xs)))
          at (rw (f, p, index_byte) refl, ap (λ l. x ∷ l) q)
  ]
]

-- What a line adds to the raw bytes: nothing, or a line that may be passed on.
unfoldable pub Adds : Bytes → Taken → Type 0
Adds raw (taken h raw') =
    (raw' ≡ raw) ⊎ ((line : Bytes) × (IsForwarded line) × (raw' ≡ raw ++ line))
Adds raw (rejected e raw') = raw' ≡ raw

pass_on-Adds :
    (kn : Bytes) (h : Header) (raw line : Bytes) (i : ℕ)
    → IsOneLine line
    → index_byte b':' line ≡ some i
    → ascii_to_lower (take i line) ≡ kn
    → Adds raw (pass_on kn h raw line)
unfolding pass_on Adds IsForwarded
pass_on-Adds kn h raw line i o e f = elim (Bool-cases (hop_by_hop_header kn)) [
  | inl g ↦ rw g (inl refl)
  | inr g ↦ rw g (inr (line, (o, i, e, ap hop_by_hop_header f ∙ g), refl))
]

-- The value as a parser leaves it: the same, or in lower case.
unfoldable IsRewritten : Bytes → Parsed → Type 0
IsRewritten s (refused e) = Unit
IsRewritten s (parsed h s') = (s' ≡ s) ⊎ (s' ≡ ascii_to_lower s)

lowered :
    (s : Bytes) → (ascii_to_lower_inplace s ≡ s) ⊎ (ascii_to_lower_inplace s ≡ ascii_to_lower s)
lowered s = inr ((ascii_inplace-eq-copy s).1)

connection-IsRewritten : (h : Header) (s : Bytes) → IsRewritten s (parse_connection h s)
unfolding IsRewritten parse_connection
connection-IsRewritten h s = lowered s

Result-cases : (r : Result ℕ) → ((n : ℕ) × (r ≡ ok n)) ⊎ ((e : ParseError) × (r ≡ err e))
Result-cases (ok n) = inl (n, refl)
Result-cases (err e) = inr (e, refl)

content_length-IsRewritten : (h : Header) (s : Bytes) → IsRewritten s (parse_content_length h s)
unfolding IsRewritten parse_content_length
content_length-IsRewritten h s = elim (Result-cases (parse_int_from_bytes s 10)) [
  | inl (n, e) ↦ rw (e, parse_content_length) (inl refl)
  | inr (x, e) ↦ rw (e, parse_content_length) tt
]

keep_alive-IsRewritten : (h : Header) (s : Bytes) → IsRewritten s (parse_keep_alive h s)
unfolding IsRewritten parse_keep_alive
keep_alive-IsRewritten h s =
    let s' = ascii_to_lower_inplace s in
    elim (Option-cases (index (codes "timeout=") s')) [
      | inl e ↦ rw (e, parse_keep_alive) (lowered s)
      | inr (id, e) ↦ elim (Result-cases (parse_int_from_bytes (digits_of (drop (id + 8) s')) 10)) [
        | inl (n, g) ↦ rw (e, parse_keep_alive, g) (lowered s)
        | inr (x, g) ↦ rw (e, parse_keep_alive, g) tt
      ]
    ]

transfer_encoding-IsRewritten :
    (h : Header) (s : Bytes) → IsRewritten s (parse_transfer_encoding h s)
unfolding IsRewritten parse_transfer_encoding
transfer_encoding-IsRewritten h s =
    let s' = ascii_to_lower_inplace s in
    elim (Bool-cases
      (not (contains s' (codes "chunked")) && not (contains s' (codes "identity")))) [
        | inl y ↦ rw y tt
        | inr n ↦ rw n (lowered s)
      ]

-- What holds of every value of a table holds of the one that is found.
lookup-All :
    {V : Type 0} (P : V → Type 0) (k : Bytes) (m : Map V) (v : V)
    → All (λ x. P (x.1)) m
    → lookup k m ≡ some v
    → P v
unfolding lookup
lookup-All P k [] v a e = absurd (cc e)
lookup-All P k ((j, x) ∷ m) v (p, a) e = elim (Bool-cases (bytes_eq j k)) [
  | inl y ↦ subst P (eq_of_some (rw (y, lookup) at e)) p
  | inr n ↦ lookup-All P k m v a (rw (n, lookup) at e)
]

header_parser-IsRewritten :
    All (λ x. (h : Header) (s : Bytes) → IsRewritten s (x.1 h s)) header_parser
unfolding header_parser IsRewritten parse_content_encoding parse_content_type parse_expect
    parse_host parse_proxy_authorization parse_trailer parse_upgrade
header_parser-IsRewritten = (
  connection-IsRewritten,
  (
    (λ h s. inl refl),
    (
      content_length-IsRewritten,
      (
        (λ h s. inl refl),
        (
          (λ h s. lowered s),
          (
            (λ h s. inl refl),
            (
              keep_alive-IsRewritten,
              (
                (λ h s. inl refl),
                (
                  connection-IsRewritten,
                  (transfer_encoding-IsRewritten, ((λ h s. inl refl), ((λ h s. inl refl), tt))),
                ),
              ),
            ),
          ),
        ),
      ),
    ),
  ),
)

length-ascii_to_lower : (s : Bytes) → length (ascii_to_lower s) ≡ length s
unfolding ascii_to_lower
length-ascii_to_lower [] = refl
length-ascii_to_lower (c ∷ s) = ap suc (length-ascii_to_lower s)

rewritten_fits :
    (s val : Bytes)
    → (val ≡ s) ⊎ (val ≡ ascii_to_lower s)
    → IsPart s
    → (length val ≡ length s) × IsPart val
rewritten_fits s val (inl e) a = (ap length e, subst IsPart (sym e) a)
rewritten_fits s val (inr e) a =
    (ap length e ∙ length-ascii_to_lower s, subst IsPart (sym e) (ascii_to_lower-IsPart s a))

-- The value in a line, and the place at which it starts.
abbrev value_in : Bytes → ℕ → Bytes
value_in line i = trim_space (drop (i + 1) line)

abbrev value_start : Bytes → ℕ → ℕ
value_start line i = i + 1 + trim_start (drop (i + 1) line)

after_parser-Adds :
    (kn : Bytes) (raw line : Bytes) (i : ℕ) (p : Parsed)
    → IsOneLine line
    → index_byte b':' line ≡ some i
    → ascii_to_lower (take i line) ≡ kn
    → (length (value_in line i) == 0) ≡ false
    → IsRewritten (value_in line i) p
    → Adds raw (after_parser kn (value_start line i) raw line p)
unfolding after_parser Adds value_put IsRewritten
after_parser-Adds kn raw line i (refused x) o e f n s = refl
after_parser-Adds kn raw line i (parsed hd val) o e f n s =
    let start = value_start line i in
    let (l, a) = rewritten_fits (value_in line i) val s (trim_space-drop-IsPart (i + 1) line o) in
    let (p, q) =
      index_byte-take b':' line (val ++ drop (start + length val) line) i start e (omega arith) in
    pass_on-Adds kn hd raw (value_put start val line) i (put-IsOneLine line val i o e n l a) p
      (ap ascii_to_lower q ∙ f)

taken-Adds : (h : Header) (raw : Bytes) → Adds raw (taken h raw)
unfolding Adds
taken-Adds h raw = inl refl

with_parser-Adds :
    (kn : Bytes) (h : Header) (raw line : Bytes) (i : ℕ) (p : Option (Header → Bytes → Parsed))
    → lookup kn header_parser ≡ p
    → IsOneLine line
    → index_byte b':' line ≡ some i
    → ascii_to_lower (take i line) ≡ kn
    → Adds raw (with_parser kn (value_start line i) (value_in line i) h raw line p)
unfolding with_parser
with_parser-Adds kn h raw line i none m o e f = pass_on-Adds kn h raw line i o e f
with_parser-Adds kn h raw line i (some parse) m o e f =
    elim (Bool-cases (length (value_in line i) == 0)) [
      | inl z ↦ rw z (taken-Adds h raw)
      | inr z ↦
          let rewritten =
            lookup-All (λ g. (h : Header) (s : Bytes) → IsRewritten s (g h s)) kn header_parser
              parse header_parser-IsRewritten m in
          rw z (
            after_parser-Adds kn raw line i (parse h (value_in line i)) o e f z
              (rewritten h (value_in line i)))
    ]

split_line :
    (h : Header) (raw line : Bytes) (split : Option ℕ)
    → IsOneLine line
    → index_byte b':' line ≡ split
    → Adds raw (with_split h raw line (split_header line))
unfolding with_split split_header Adds
split_line h raw line none o e = rw (e, split_header) refl
split_line h raw line (some i) o e =
    rw (e, split_header)
      (with_parser-Adds (ascii_to_lower (take i line)) h raw line i _ refl o e refl)

-- Whatever a line of a header says and however its value is rewritten, nothing is added to what
-- is passed on, or one line is whose field is none of the connection's own.
pub take_line-Adds :
    (h : Header) (raw line : Bytes) → IsOneLine line → Adds raw (take_line h raw line)
unfolding take_line
take_line-Adds h raw line o = split_line h raw line _ o refl
