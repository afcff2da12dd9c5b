-- ===== src/Util/Mask/Bits.antt =====
-- util.go: the masks that `NewNbitIPv4Mask` makes.
use cow.Base.{
  ℕ, ◌+◌, ◌-◌, ◌*◌, ◌^◌, ◌≤◌, ◌≡◌, refl, ap, Bool, true, false, ◌&&◌, Option, none, some, [], ◌∷◌,
  arith, ltb, ◌==◌, check_below, check_below_sound, length, get_or, all, Bytes, bytes_eq,
  eq_of_bytes_eq, int64_mod,
}
use cow.Util.Mask.{new_nbit_ipv4_mask}

-- An address or mask as one number, the first byte the most significant.
abbrev pub ipv4_number : Bytes → ℕ
ipv4_number b = get_or b 0 0 * 2 ^ 24 + get_or b 1 0 * 2 ^ 16 + get_or b 2 0 * 2 ^ 8 + get_or b 3 0

abbrev is_prefix_mask : ℕ → Option Bytes → Bool
is_prefix_mask n none = false
is_prefix_mask n (some m) =
    length m == 4 && (all (λ b. ltb b 256) m && ipv4_number m == 2 ^ 32 - 2 ^ (32 - n))

prefix_masks : check_below 33 (λ n. is_prefix_mask n (new_nbit_ipv4_mask n)) ≡ true
unfolding new_nbit_ipv4_mask check_below
prefix_masks = refl

is_prefix_mask_elim :
    (n : ℕ) (o : Option Bytes)
    → is_prefix_mask n o ≡ true
    → (m : Bytes) × (o ≡ some m) × (length m ≡ 4) × (ipv4_number m ≡ 2 ^ 32 - 2 ^ (32 - n))
is_prefix_mask_elim n none h = cc
is_prefix_mask_elim n (some m) h = (m, refl, ground arith, ground arith)

-- For 0 to 32 bits the mask has four bytes, and as a 32-bit number the given count of leading
-- one bits and zeros behind them.
pub new_nbit_ipv4_mask-bits :
    (n : ℕ)
    → n ≤ 32
    → (m : Bytes) × (new_nbit_ipv4_mask n ≡ some m)
      × (length m ≡ 4)
      × (ipv4_number m ≡ 2 ^ 32 - 2 ^ (32 - n))
new_nbit_ipv4_mask-bits n h = is_prefix_mask_elim n (new_nbit_ipv4_mask n) (
    check_below_sound 33 (λ k. is_prefix_mask k (new_nbit_ipv4_mask k)) n prefix_masks
      (omega arith))

is_zero_mask : Option Bytes → Bool
is_zero_mask none = false
is_zero_mask (some m) = bytes_eq m (0 ∷ 0 ∷ 0 ∷ 0 ∷ [])

zero_masks : check_below 247 (λ k. is_zero_mask (new_nbit_ipv4_mask (2 ^ 64 - (k + 1)))) ≡ true
unfolding is_zero_mask new_nbit_ipv4_mask check_below bytes_eq
zero_masks = refl

is_zero_mask_elim : (o : Option Bytes) → is_zero_mask o ≡ true → o ≡ some (0 ∷ 0 ∷ 0 ∷ 0 ∷ [])
unfolding is_zero_mask
is_zero_mask_elim none h = cc
is_zero_mask_elim (some m) h = ap some (eq_of_bytes_eq m _ h)

-- A negative bit count from -1 to -247 is no panic: its mask is 0.0.0.0, which matches every
-- address.
pub new_nbit_ipv4_mask_negative :
    (k : ℕ) → 1 ≤ k → k ≤ 247 → new_nbit_ipv4_mask (int64_mod - k) ≡ some (0 ∷ 0 ∷ 0 ∷ 0 ∷ [])
new_nbit_ipv4_mask_negative k lo hi =
    is_zero_mask_elim (new_nbit_ipv4_mask (int64_mod - k)) (rw back at table)
  where
    table : is_zero_mask (new_nbit_ipv4_mask (int64_mod - ((k - 1) + 1))) ≡ true
    table =
        check_below_sound 247 (λ j. is_zero_mask (new_nbit_ipv4_mask (int64_mod - (j + 1)))) (k - 1)
          zero_masks (omega arith)

    back : int64_mod - ((k - 1) + 1) ≡ int64_mod - k
    back = omega arith
