-- ===== src/Base/Words.antt =====
-- Machine integers as their bit patterns. A signed w-bit integer is the number of its pattern,
-- below 2 ^ w; `h` below is 2 ^ (w - 1).
use Prim.Native.Nat.{ℕ, ◌+◌, ◌-◌, ◌%◌, ◌^◌}
use mathlib.Core.Bool.{Bool}
use cow.Base.Tests.{ltb, leb}

-- `a < b` on signed integers.
abbrev pub signed_lt : ℕ → ℕ → ℕ → Bool
signed_lt h a b = ltb ((a + h) % (h + h)) ((b + h) % (h + h))

-- `a >= b` on signed integers.
abbrev pub signed_ge : ℕ → ℕ → ℕ → Bool
signed_ge h a b = leb ((b + h) % (h + h)) ((a + h) % (h + h))

-- `a - b`, wrapping.
abbrev pub signed_sub : ℕ → ℕ → ℕ → ℕ
signed_sub h a b = (a + (h + h) - b) % (h + h)

-- `-a`, wrapping.
abbrev pub signed_neg : ℕ → ℕ → ℕ
signed_neg h a = (h + h - a) % (h + h)

abbrev pub int8_half : ℕ
int8_half = 2 ^ 7

abbrev pub int64_half : ℕ
int64_half = 2 ^ 63

abbrev pub int64_mod : ℕ
int64_mod = 2 ^ 64
