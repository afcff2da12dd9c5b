-- ===== src/Util/ParseInt/Hex.antt =====
-- util.go: `ParseIntFromBytes` reads the size line of a chunk as `fmt` prints it with "%x\r\n".
use cow.Base.{
  ℕ, zero, suc, ◌+◌, ◌-◌, ◌*◌, ◌/◌, ◌%◌, ◌^◌, ◌≤◌, ◌<◌, ◌≡◌, refl, sym, ap, ◌∙◌, inl, inr, false,
  none, List, [], ◌∷◌, ◌++◌, map, arith, ◌==◌, Bool-cases, length, get_or, length-append,
  take-append, All, length-map, All-mono, Bytes, index_byte, int64_mod,
}
use native.Mathlib.Nat.{pow-suc, pow-zero}
use cow.Std.Strconv.{hex_char, hex_digits, write_hex}
use cow.Util.Space.{is_space, trim_start, trim_end, trim_space}
use cow.Util.Space.Trim.{lt-trim_end, trim_end-le}
use cow.Util.ParseInt.{ok, parse_int_from_bytes}
use cow.Util.ParseInt.Digits.{value, regroup, parse_int-digits}

-- What the loop leaves: digits of base 16 that write the number, at least one of them.
record IsHexOf (n : ℕ) (vs : List ℕ) : Type 0 where
  pub digits : All (λ v. v < 16) vs
  pub writes : value 16 vs ≡ n
  pub not_empty : 0 < length vs

hex_digits-value :
    (fuel n : ℕ) (acc : List ℕ)
    → n < 16 ^ fuel
    → 0 < fuel
    → All (λ v. v < 16) acc
    → All (λ v. v < 16) (hex_digits fuel n acc)
      × (value 16 (hex_digits fuel n acc) ≡ n * 16 ^ length acc + value 16 acc)
      × (0 < length (hex_digits fuel n acc))
unfolding hex_digits
hex_digits-value zero n acc h p a = absurd (omega arith)
hex_digits-value (suc fuel) n acc h p a = elim (Bool-cases (n / 16 == 0)) [
  | inl y ↦
      let last : n % 16 ≡ n = ground arith in
      rw y ((omega arith, a), ap (λ k. k * 16 ^ length acc + value 16 acc) last, omega arith)
  | inr f ↦
      let below : n / 16 < 16 ^ fuel = omega (arith, pow-suc 16 fuel) in
      let more : 0 < fuel =
        elim fuel as (λ k. n / 16 < 16 ^ k → 0 < k) [
          | zero ↦ λ b. absurd (ground (arith, pow-zero 16))
          | suc k ↦ λ b. omega arith
        ]
          below in
      let (d, v, l) = hex_digits-value fuel (n / 16) (n % 16 ∷ acc) below more (omega arith, a) in
      rw f (
        d,
        v
            ∙ ap (λ k. n / 16 * k + (n % 16 * 16 ^ length acc + value 16 acc))
                (pow-suc 16 (length acc))
            ∙ sym (regroup (n / 16) 16 (n % 16) (16 ^ length acc) (value 16 acc))
            ∙ ap (λ k. k * 16 ^ length acc + value 16 acc) (omega arith),
        l,
      )
]

write_hex-IsHexOf : (n : ℕ) → n < int64_mod → IsHexOf n (hex_digits 16 n [])
write_hex-IsHexOf n h =
    let (d, v, l) = hex_digits-value 16 n [] (omega arith) (omega arith) tt in
    record { digits = d; writes = v ∙ omega (arith, pow-zero 16); not_empty = l }

parse-digits_of :
    (n : ℕ) (vs : List ℕ)
    → n < int64_mod
    → IsHexOf n vs
    → parse_int_from_bytes (map hex_char vs) 16 ≡ ok n
parse-digits_of n [] h k = absurd (let p = k.not_empty in omega arith)
parse-digits_of n (v ∷ vs) h k =
    (parse_int-digits 16 v vs (inr refl) k.digits).0
    ∙ ap ok (ap (λ m. m % int64_mod) k.writes ∙ omega arith)

-- `ParseIntFromBytes` reads what `fmt` printed of an int.
pub parse-write_hex : (n : ℕ) → n < int64_mod → parse_int_from_bytes (write_hex n) 16 ≡ ok n
unfolding write_hex
parse-write_hex n h = parse-digits_of n (hex_digits 16 n []) h (write_hex-IsHexOf n h)

-- The digits of a size are neither white space nor one of the marks of a size line.
abbrev IsPlain : ℕ → Type 0
IsPlain c = (is_space c ≡ false) × ((c == 59) ≡ false) × ((c == 10) ≡ false)

hex_char-IsPlain : (v : ℕ) → v < 16 → IsPlain (hex_char v)
unfolding is_space
hex_char-IsPlain v h = ground arith

map-IsPlain : (vs : List ℕ) → All (λ v. v < 16) vs → All IsPlain (map hex_char vs)
map-IsPlain [] a = tt
map-IsPlain (v ∷ vs) a = (hex_char-IsPlain v a.0, map-IsPlain vs a.1)

-- A mark that is not in a text and not in what follows is not found.
index-none :
    (c : ℕ) (b t : Bytes)
    → All (λ x. (x == c) ≡ false) b
    → index_byte c t ≡ none
    → index_byte c (b ++ t) ≡ none
unfolding index_byte
index-none c [] t a e = e
index-none c (x ∷ b) t a e = rw (a.0, index-none c b t a.1 e) refl

last_plain :
    (b t : Bytes) (k : ℕ)
    → All IsPlain b
    → length b ≡ suc k
    → is_space (get_or (b ++ t) k 0) ≡ false
last_plain [] t k a h = absurd (omega arith)
last_plain (x ∷ b) t zero a h = a.0.0
last_plain (x ∷ []) t (suc k) a h = absurd (omega arith)
last_plain (x ∷ y ∷ b) t (suc k) a h = last_plain (y ∷ b) t k a.1 (omega arith)

trim_start_plain : (b t : Bytes) → All IsPlain b → 0 < length b → trim_start (b ++ t) ≡ 0
unfolding trim_start
trim_start_plain [] t a h = absurd (omega arith)
trim_start_plain (x ∷ b) t a h = rw a.0.0 refl

get_or_here : (b : Bytes) (x : ℕ) (t : Bytes) → get_or (b ++ x ∷ t) (length b) 0 ≡ x
get_or_here [] x t = refl
get_or_here (y ∷ b) x t = get_or_here b x t

get_or_next : (b : Bytes) (x y : ℕ) (t : Bytes) → get_or (b ++ x ∷ y ∷ t) (suc (length b)) 0 ≡ y
get_or_next [] x y t = refl
get_or_next (z ∷ b) x y t = get_or_next b x y t

trim_end_line :
    (b : Bytes)
    → All IsPlain b
    → 0 < length b
    → trim_end (b ++ 13 ∷ 10 ∷ []) (suc (suc (length b))) ≡ length b
unfolding trim_end is_space
trim_end_line b a h =
    let line = b ++ 13 ∷ 10 ∷ [] in
    rw (get_or_next b 13 10 [], get_or_here b 13 (10 ∷ []))
      (let low =
          lt-trim_end line (length b) (length b - 1) (omega arith)
            (last_plain b (13 ∷ 10 ∷ []) (length b - 1) a (omega arith)) in
        let high = trim_end-le line (length b) in omega arith)

-- `TrimSpace` leaves the digits of a size line.
trim_space-line : (b : Bytes) → All IsPlain b → 0 < length b → trim_space (b ++ 13 ∷ 10 ∷ []) ≡ b
unfolding trim_space
trim_space-line b a h =
    let line = b ++ 13 ∷ 10 ∷ [] in
    let size : length line ≡ suc (suc (length b)) = omega (arith, length-append b (13 ∷ 10 ∷ [])) in
    let shorter : (0 == suc (suc (length b))) ≡ false = ground arith in
    rw (trim_start_plain b (13 ∷ 10 ∷ []) a h, size, trim_end_line b a h, shorter)
      (take-append b (13 ∷ 10 ∷ []))

All-semicolon : (b : Bytes) → All IsPlain b → All (λ x. (x == 59) ≡ false) b
All-semicolon b a = All-mono IsPlain (λ x. (x == 59) ≡ false) (λ x h. h.1) b a

All-line_feed : (b : Bytes) → All IsPlain b → All (λ x. (x == 10) ≡ false) b
All-line_feed b a = All-mono IsPlain (λ x. (x == 10) ≡ false) (λ x h. h.2) b a

hex_digits-IsPlain : (n : ℕ) → n < int64_mod → All IsPlain (write_hex n)
unfolding write_hex
hex_digits-IsPlain n h = map-IsPlain (hex_digits 16 n []) (write_hex-IsHexOf n h).digits

write_hex-not_empty : (n : ℕ) → n < int64_mod → 0 < length (write_hex n)
unfolding write_hex
write_hex-not_empty n h =
    omega (arith, length-map hex_char (hex_digits 16 n []), (write_hex-IsHexOf n h).not_empty)

-- The size line of a chunk, without its line feed, holds no other one and no extension; with it,
-- it is read as the size.
pub write_hex-line :
    (n : ℕ)
    → n < int64_mod
    → (index_byte 10 (write_hex n ++ 13 ∷ []) ≡ none)
      × (index_byte 59 (write_hex n ++ 13 ∷ 10 ∷ []) ≡ none)
      × (parse_int_from_bytes (trim_space (write_hex n ++ 13 ∷ 10 ∷ [])) 16 ≡ ok n)
unfolding index_byte
write_hex-line n h =
    let a = hex_digits-IsPlain n h in
    (
      index-none 10 (write_hex n) (13 ∷ []) (All-line_feed (write_hex n) a) refl,
      index-none 59 (write_hex n) (13 ∷ 10 ∷ []) (All-semicolon (write_hex n) a) refl,
      ap (λ b. parse_int_from_bytes b 16)
            (trim_space-line (write_hex n) a (write_hex-not_empty n h))
          ∙ parse-write_hex n h,
    )

length-hex_digits : (fuel n : ℕ) (acc : List ℕ) → length (hex_digits fuel n acc) ≤ fuel + length acc
unfolding hex_digits
length-hex_digits zero n acc = omega arith
length-hex_digits (suc fuel) n acc = elim (Bool-cases (n / 16 == 0)) [
  | inl y ↦ rw y (omega arith)
  | inr f ↦ rw f (omega (arith, length-hex_digits fuel (n / 16) (n % 16 ∷ acc)))
]

pub length-write_hex : (n : ℕ) → length (write_hex n) ≤ 16
unfolding write_hex
length-write_hex n =
    omega (arith, length-map hex_char (hex_digits 16 n []), length-hex_digits 16 n [])
