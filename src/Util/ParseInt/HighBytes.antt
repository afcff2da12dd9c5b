-- ===== src/Util/ParseInt/HighBytes.antt =====
-- util.go: `ParseIntFromBytes` on bytes that are not ASCII.
use cow.Base.{
  ℕ, ◌+◌, ◌*◌, ◌%◌, ◌≡◌, ◌≤◌, refl, ap, ◌∙◌, inl, inr, Bytes, ◌∷◌, [], All, arith, int64_mod, leb,
  some, ◌==◌, not, ◌&&◌, false,
}
use cow.Util.ParseInt.{ok, digit_tbl, parse_digits, parse_signed, parse_int_from_bytes}
use cow.Util.ParseInt.Digits.{IsBase}

digit_tbl_high : (c : ℕ) → 128 ≤ c → digit_tbl c ≡ some 0
unfolding digit_tbl
digit_tbl_high c h = ground arith

parse_digits_high :
    (base : ℕ) (b : Bytes) → IsBase base → All (λ c. 128 ≤ c) b → parse_digits base 0 b ≡ ok 0
unfolding parse_digits
parse_digits_high base [] w a = refl
parse_digits_high base (c ∷ b) w a =
    let positive : leb base 0 ≡ false = elim w [ inl e ↦ rw e refl | inr e ↦ rw e refl ] in
    let still : (0 * base % int64_mod + 0) % int64_mod ≡ 0 = elim w [
      | inl e ↦ rw e refl
      | inr e ↦ rw e refl
    ] in
    rw (digit_tbl_high c a.0, parse_digits, positive)
      (ap (λ n. parse_digits base n b) still ∙ parse_digits_high base b w a.1)

-- In base 10 or 16 a text of one byte from 128 on, or of more, is read as the number 0 and not
-- refused.
pub parse_int_high :
    (base c : ℕ) (b : Bytes)
    → IsBase base
    → 128 ≤ c
    → All (λ d. 128 ≤ d) b
    → parse_int_from_bytes (c ∷ b) base ≡ ok 0
unfolding parse_int_from_bytes parse_signed
parse_int_high base c b w h a =
    let known : (not (base == 10) && not (base == 16)) ≡ false = elim w [
      | inl e ↦ rw e refl
      | inr e ↦ rw e refl
    ] in
    let plus : (c == b'+') ≡ false = ground arith in
    let minus : (c == b'-') ≡ false = ground arith in
    rw (known, plus, minus) (parse_digits_high base (c ∷ b) w (h, a))
