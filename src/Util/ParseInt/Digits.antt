-- ===== src/Util/ParseInt/Digits.antt =====
-- util.go: which texts `ParseIntFromBytes` accepts, and what it returns for them.
use cow.Base.{
  ℕ, ◌+◌, ◌-◌, ◌*◌, ◌%◌, ◌^◌, ◌<◌, ◌≡◌, sym, ap, ◌∙◌, ◌⊎◌, inl, inr, Bool, true, false, not, ◌&&◌,
  ◌||◌, none, some, List, [], ◌∷◌, map, arith, ltb, leb, ◌==◌, if◌then◌else◌, Bool-cases,
  Option-cases, length, all, All, Bytes, signed_neg, int64_half, int64_mod,
}
use native.Mathlib.Nat.{pow-suc, pow-zero, mul-one}
use cow.Util.ParseInt.{
  Result, ok, err, digit_tbl, parse_digits, apply_sign, parse_signed, parse_int_from_bytes,
}

-- A digit as `fmt` prints it, in base 10 and 16.
abbrev pub digit_char : ℕ → ℕ
digit_char v = if ltb v 10 then b'0' + v else b'a' + (v - 10)

-- The number that digits write, the most significant first.
abbrev pub value : ℕ → List ℕ → ℕ
value base [] = 0
value base (v ∷ vs) = v * base ^ length vs + value base vs

digit_tbl-digit_char : (v : ℕ) → v < 16 → digit_tbl (digit_char v) ≡ some v
unfolding digit_tbl
digit_tbl-digit_char v h = ground arith

abbrev pub IsBase : ℕ → Type 0
IsBase base = (base ≡ 10) ⊎ (base ≡ 16)

-- The loop's number with no wrap-around.
horner : ℕ → ℕ → List ℕ → ℕ
horner base n [] = n
horner base n (v ∷ vs) = horner base (n * base + v) vs

horner_cong_step :
    (base a b v : ℕ)
    → IsBase base
    → a % int64_mod ≡ b % int64_mod
    → (a * base + v) % int64_mod ≡ (b * base + v) % int64_mod
horner_cong_step base a b v (inl e) h = rw e (omega arith)
horner_cong_step base a b v (inr e) h = rw e (omega arith)

horner_cong :
    (base a b : ℕ) (vs : List ℕ)
    → IsBase base
    → a % int64_mod ≡ b % int64_mod
    → horner base a vs % int64_mod ≡ horner base b vs % int64_mod
unfolding horner
horner_cong base a b [] w h = h
horner_cong base a b (v ∷ vs) w h =
    horner_cong base (a * base + v) (b * base + v) vs w (horner_cong_step base a b v w h)

pub regroup : (n b v p r : ℕ) → (n * b + v) * p + r ≡ n * (p * b) + (v * p + r)
regroup n b v p r = omega arith

horner-value : (base n : ℕ) (vs : List ℕ) → horner base n vs ≡ n * base ^ length vs + value base vs
unfolding horner
horner-value base n [] = rw (pow-zero base, mul-one n) (omega arith)
horner-value base n (v ∷ vs) =
    horner-value base (n * base + v) vs
    ∙ regroup n base v (base ^ length vs) (value base vs)
    ∙ ap (λ p. n * p + (v * base ^ length vs + value base vs)) (sym (pow-suc base (length vs)))

abbrev next_number : ℕ → ℕ → ℕ → ℕ
next_number base n v = (n * base % int64_mod + v) % int64_mod

below_16 : (base v : ℕ) → IsBase base → v < base → v < 16
below_16 base v (inl e) h = omega arith
below_16 base v (inr e) h = omega arith

base_test : (base : ℕ) → IsBase base → (not (base == 10) && not (base == 16)) ≡ false
base_test base (inl e) = rw e
base_test base (inr e) = rw e

parse_digits_step :
    (base n v : ℕ) (b : Bytes)
    → IsBase base
    → v < base
    → parse_digits base n (digit_char v ∷ b) ≡ parse_digits base (next_number base n v) b
unfolding parse_digits
parse_digits_step base n v b w h = ground (arith, digit_tbl-digit_char v (below_16 base v w h))

parse_digits-horner :
    (base n : ℕ) (vs : List ℕ)
    → IsBase base
    → n < int64_mod
    → All (λ v. v < base) vs
    → parse_digits base n (map digit_char vs) ≡ ok (horner base n vs % int64_mod)
unfolding parse_digits horner
parse_digits-horner base n [] w h a = ap ok (omega arith)
parse_digits-horner base n (v ∷ vs) w h a =
    parse_digits_step base n v (map digit_char vs) w a.0
    ∙ parse_digits-horner base (next_number base n v) vs w (omega arith) a.1
    ∙ ap ok (horner_cong base (next_number base n v) (n * base + v) vs w (omega arith))

-- `fmt` never prints a digit as `+` or `-`, so none is taken for a sign.
digit_char-no_sign :
    (v : ℕ) → v < 16 → ((digit_char v == b'+') ≡ false) × ((digit_char v == b'-') ≡ false)
digit_char-no_sign v h = ground arith

module _ (base v : ℕ) (vs : List ℕ) (w : IsBase base) (a : All (λ d. d < base) (v ∷ vs)) where
  read : parse_digits base 0 (map digit_char (v ∷ vs)) ≡ ok (value base (v ∷ vs) % int64_mod)
  read =
      parse_digits-horner base 0 (v ∷ vs) w (omega arith) a
      ∙ ap (λ n. ok (n % int64_mod)) (horner-value base 0 (v ∷ vs) ∙ no_start)
    where
      no_start : 0 * base ^ length (v ∷ vs) + value base (v ∷ vs) ≡ value base (v ∷ vs)
      no_start = omega arith

  -- A number in base 10 or 16, as `fmt` prints it, with no sign or with one, is read back as what
  -- its digits say, modulo 2 ^ 64; a minus sign negates the int64.
  pub parse_int-digits :
      (parse_int_from_bytes (map digit_char (v ∷ vs)) base ≡ ok (value base (v ∷ vs) % int64_mod))
      × (parse_int_from_bytes (b'+' ∷ map digit_char (v ∷ vs)) base
          ≡ ok (value base (v ∷ vs) % int64_mod))
      × (parse_int_from_bytes (b'-' ∷ map digit_char (v ∷ vs)) base
          ≡ ok (signed_neg int64_half (value base (v ∷ vs) % int64_mod)))
  unfolding parse_int_from_bytes parse_signed apply_sign
  parse_int-digits =
      rw
        (
          base_test base w,
          (digit_char-no_sign v (below_16 base v w a.0)).0,
          (digit_char-no_sign v (below_16 base v w a.0)).1,
        )
        (read, read, rw (read, apply_sign))

-- Texts of ASCII bytes that are digits of the base.
abbrev pub is_digit_of : ℕ → ℕ → Bool
is_digit_of base c =
    (leb b'0' c && leb c b'9')
    || base == 16 && ((leb b'a' c && leb c b'f') || (leb b'A' c && leb c b'F'))

abbrev pub IsOk {ℓ} : {A : Type ℓ} → Result A → Type 0
IsOk (ok a) = Unit
IsOk (err e) = ⊥

abbrev IsErr {ℓ} : {A : Type ℓ} → Result A → Type 0
IsErr (ok a) = ⊥
IsErr (err e) = Unit

-- On an ASCII byte the table and the base's test together say whether it is a digit.
tbl_digit :
    (base c v : ℕ)
    → IsBase base
    → c < 128
    → digit_tbl c ≡ some v
    → is_digit_of base c ≡ not (leb base v)
unfolding digit_tbl
tbl_digit base c v (inl e) h t = rw e (ground arith)
tbl_digit base c v (inr e) h t = rw e (ground arith)

tbl_none : (base c : ℕ) → digit_tbl c ≡ none → is_digit_of base c ≡ false
unfolding digit_tbl
tbl_none base c t = ground arith

abbrev Decides : Bool → Result ℕ → Type 0
Decides true r = IsOk r
Decides false r = IsErr r

parse_digits-Decides :
    (base n : ℕ) (b : Bytes)
    → IsBase base
    → All (λ c. c < 128) b
    → Decides (all (is_digit_of base) b) (parse_digits base n b)
unfolding parse_digits
parse_digits-Decides base n [] w a = tt
parse_digits-Decides base n (c ∷ b) w a = elim (Option-cases (digit_tbl c)) [
  | inl t ↦ rw (tbl_none base c t, t, parse_digits) tt
  | inr (v, t) ↦ elim (Bool-cases (leb base v)) [
    | inl l ↦ rw (tbl_digit base c v w a.0 t, t, l, parse_digits) tt
    | inr l ↦
        rw (tbl_digit base c v w a.0 t, t, l, parse_digits)
          (parse_digits-Decides base (next_number base n v) b w a.1)
  ]
]
