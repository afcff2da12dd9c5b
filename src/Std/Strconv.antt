-- ===== src/Std/Strconv.antt =====
-- Go's `strconv`: numbers in decimal and hexadecimal. An int is its bit pattern, below 2 ^ 64.
pub mod RoundTrip
use cow.Base.{
  ℕ, zero, suc, ◌+◌, ◌-◌, ◌*◌, ◌/◌, ◌%◌, Bool, true, false, ◌&&◌, Option, none, some, List, map, [],
  ◌∷◌, ltb, leb, ◌==◌, if◌then◌else◌, Bytes, signed_neg, int64_half,
}

-- The value of digits of a base, of any size; `none` at a byte that is no digit.
unfoldable pub digit_value : ℕ → ℕ → Option ℕ
digit_value base c =
    let v : ℕ =
      if leb b'0' c && leb c b'9'
      then c - b'0'
      else if leb b'a' c && leb c b'z'
      then c - b'a' + 10
      else if leb b'A' c && leb c b'Z'
      then c - b'A' + 10
      else 255 in
    if ltb v base then some v else none

unfoldable pub digits_value : ℕ → ℕ → Bytes → Option ℕ
digits_value base n [] = some n
digits_value base n (c ∷ b) = elim (digit_value base c) [
  | some v ↦ digits_value base (n * base + v) b
  | none ↦ none
]

unfoldable pub unsigned : ℕ → Bytes → Option ℕ
unfolding digits_value digit_value
unsigned base [] = none
unsigned base (c ∷ b) = digits_value base 0 (c ∷ b)

-- The range of int64.
unfoldable pub in_range : Bool → Option ℕ → Option ℕ
in_range neg none = none
in_range true (some n) = if leb n int64_half then some (signed_neg int64_half n) else none
in_range false (some n) = if ltb n int64_half then some n else none

-- `strconv.ParseInt(s, base, 64)`.
unfoldable pub parse_int : ℕ → Bytes → Option ℕ
unfolding unsigned in_range
parse_int base [] = none
parse_int base (c ∷ b) =
    if c == b'+'
    then in_range false (unsigned base b)
    else if c == b'-'
    then in_range true (unsigned base b)
    else in_range false (unsigned base (c ∷ b))

-- `strconv.Atoi`.
unfoldable pub atoi : Bytes → Option ℕ
unfolding parse_int
atoi s = parse_int 10 s

-- The digits of a number in front of what is written already; the fuel bounds their count.
unfoldable pub write_digits : ℕ → ℕ → Bytes → Bytes
write_digits zero n acc = acc
write_digits (suc fuel) n acc =
    let next = (b'0' + n % 10) ∷ acc in
    let rest = write_digits fuel (n / 10) next in if n / 10 == 0 then next else rest

-- `strconv.Itoa` of an int that is not negative: 20 digits are enough for 2 ^ 64.
unfoldable pub itoa : ℕ → Bytes
unfolding write_digits
itoa n = write_digits 20 n []

-- The number that a hexadecimal digit of `fmt` stands for, as its byte.
abbrev pub hex_char : ℕ → ℕ
hex_char v = if ltb v 10 then b'0' + v else b'a' + (v - 10)

-- The digits of a number in base 16, in front of those written already.
unfoldable pub hex_digits : ℕ → ℕ → List ℕ → List ℕ
hex_digits zero n acc = acc
hex_digits (suc fuel) n acc =
    let rest = hex_digits fuel (n / 16) (n % 16 ∷ acc) in if n / 16 == 0 then n % 16 ∷ acc else rest

-- `fmt.Sprintf("%x", n)` of an int that is not negative: 16 digits are enough for 2 ^ 64.
unfoldable pub write_hex : ℕ → Bytes
unfolding hex_digits
write_hex n = map hex_char (hex_digits 16 n [])
