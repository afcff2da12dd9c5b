-- ===== src/Std/Strconv/RoundTrip.antt =====
-- Go's `strconv`: a number that `Itoa` writes is read back by `Atoi`.
use cow.Base.{
  ℕ, zero, suc, ◌+◌, ◌*◌, ◌/◌, ◌%◌, ◌^◌, ◌≤◌, ◌<◌, ◌≡◌, ap, ◌∙◌, inl, inr, true, some, [], ◌∷◌,
  arith, ◌==◌, Bool-cases, Bytes, int64_half,
}
use native.Mathlib.Nat.{pow-suc, pow-zero}
use cow.Std.Strconv.{
  digit_value, digits_value, unsigned, in_range, parse_int, atoi, write_digits, itoa,
}

digit_value_decimal : (v : ℕ) → v < 10 → digit_value 10 (b'0' + v) ≡ some v
unfolding digit_value
digit_value_decimal v h = ground arith

digits_value-cons :
    (n v : ℕ) (b : Bytes)
    → v < 10
    → digits_value 10 n ((b'0' + v) ∷ b) ≡ digits_value 10 (n * 10 + v) b
unfolding digits_value
digits_value-cons n v b h = ground (arith, digit_value_decimal v h)

-- Reading the digits of `n` in front of `acc` is reading `acc` from `n` on.
digits_value-write :
    (fuel n : ℕ) (acc : Bytes)
    → n < 10 ^ fuel
    → digits_value 10 0 (write_digits fuel n acc) ≡ digits_value 10 n acc
unfolding write_digits
digits_value-write zero n acc h = ap (λ k. digits_value 10 k acc) zero_is
  where
    zero_is : 0 ≡ n
    zero_is = let one : n < 1 = rw pow-zero at h in omega arith
digits_value-write (suc fuel) n acc h = elim (Bool-cases (n / 10 == 0)) [
  | inl y ↦
      rw y
        (digits_value-cons 0 (n % 10) acc (omega arith) ∙ ap (λ k. digits_value 10 k acc) (last y))
  | inr f ↦ rw f (
      digits_value-write fuel (n / 10) ((b'0' + n % 10) ∷ acc) fits
      ∙ digits_value-cons (n / 10) (n % 10) acc (omega arith)
      ∙ ap (λ k. digits_value 10 k acc) whole)
]
  where
    last : (n / 10 == 0) ≡ true → 0 * 10 + n % 10 ≡ n
    last y = ground arith

    whole : n / 10 * 10 + n % 10 ≡ n
    whole = omega arith

    fits : n / 10 < 10 ^ fuel
    fits = omega (arith, pow-suc 10 fuel)

-- What `write_digits` writes begins with a digit.
abbrev pub BeginsWithDigit : Bytes → Type 0
BeginsWithDigit [] = ⊥
BeginsWithDigit (c ∷ b) = (b'0' ≤ c) × (c ≤ b'9')

write_digits-digit :
    (fuel n : ℕ) (acc : Bytes) → BeginsWithDigit acc → BeginsWithDigit (write_digits fuel n acc)
unfolding write_digits
write_digits-digit zero n acc h = h
write_digits-digit (suc fuel) n acc h = elim (Bool-cases (n / 10 == 0)) [
  | inl y ↦ rw y (omega arith)
  | inr f ↦ rw f (write_digits-digit fuel (n / 10) ((b'0' + n % 10) ∷ acc) (omega arith))
]

itoa-digit : (n : ℕ) → BeginsWithDigit (itoa n)
unfolding itoa write_digits
itoa-digit n = elim (Bool-cases (n / 10 == 0)) [
  | inl y ↦ rw y (omega arith)
  | inr f ↦ rw f (write_digits-digit 19 (n / 10) ((b'0' + n % 10) ∷ []) (omega arith))
]

read_number :
    (s : Bytes) (n : ℕ)
    → BeginsWithDigit s
    → digits_value 10 0 s ≡ some n
    → n < int64_half
    → atoi s ≡ some n
unfolding atoi parse_int unsigned in_range
read_number [] n d e h = absurd d
read_number (c ∷ b) n d e h = elim (Bool-cases (c == b'+')) [
  | inl y ↦ absurd (ground arith)
  | inr p ↦ elim (Bool-cases (c == b'-')) [
    | inl y ↦ absurd (ground arith)
    | inr m ↦ rw (p, m, e, in_range) (ground arith)
  ]
]

-- Every int that is not negative survives `Itoa` and `Atoi`.
pub atoi-itoa : (n : ℕ) → n < int64_half → atoi (itoa n) ≡ some n
unfolding itoa digits_value
atoi-itoa n h =
    read_number (write_digits 20 n []) n (itoa-digit n) (digits_value-write 20 n [] (omega arith)) h
