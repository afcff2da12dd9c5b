-- ===== src/Util/ParseInt.antt =====
-- util.go: `ParseIntFromBytes`. A result of type int64 is its bit pattern, below 2 ^ 64.
pub mod Digits
pub mod HighBytes
pub mod Hex
use cow.Base.{
  ℕ, ◌+◌, ◌-◌, ◌*◌, ◌%◌, Bool, true, false, not, ◌&&◌, Option, none, some, [], ◌∷◌, leb, ◌==◌,
  if◌then◌else◌, Bytes, signed_neg, int64_half, int64_mod,
}

pub data ParseError : Type 0 where
  invalid_base empty_bytes invalid_number invalid_digit : ParseError

pub data Result {ℓ} (A : Type ℓ) : Type ℓ where
  ok : A → Result A
  err : ParseError → Result A

-- The table `digitTbl`, of 256 entries: `none` for -1. Its text lists 128 entries, so those from
-- 128 on are zero.
unfoldable pub digit_tbl : ℕ → Option ℕ
digit_tbl d =
    if leb b'0' d && leb d b'9'
    then some (d - b'0')
    else if leb b'A' d && leb d b'F'
    then some (d - b'A' + 10)
    else if leb b'a' d && leb d b'f'
    then some (d - b'a' + 10)
    else if leb 128 d
    then some 0
    else none

-- The loop over the digits; `n` is the number read so far.
unfoldable pub parse_digits : ℕ → ℕ → Bytes → Result ℕ
parse_digits base n [] = ok n
parse_digits base n (d ∷ b) = elim (digit_tbl d) [
  | none ↦ err invalid_number
  | some v ↦ elim (leb base v) [
    | true ↦ err invalid_digit
    | false ↦ parse_digits base ((n * base % int64_mod + v) % int64_mod) b
  ]
]

-- `if neg { n = -n }`
unfoldable pub apply_sign : Bool → Result ℕ → Result ℕ
apply_sign true (ok n) = ok (signed_neg int64_half n)
apply_sign false (ok n) = ok n
apply_sign neg (err e) = err e

unfoldable pub parse_signed : ℕ → Bytes → Result ℕ
unfolding apply_sign
parse_signed base [] = err empty_bytes
parse_signed base (c ∷ b) =
    if c == b'+'
    then parse_digits base 0 b
    else if c == b'-'
    then apply_sign true (parse_digits base 0 b)
    else parse_digits base 0 (c ∷ b)

unfoldable pub parse_int_from_bytes : Bytes → ℕ → Result ℕ
unfolding parse_signed parse_digits digit_tbl
parse_int_from_bytes b base =
    if not (base == 10) && not (base == 16) then err invalid_base else parse_signed base b
