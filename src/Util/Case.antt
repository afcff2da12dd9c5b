-- ===== src/Util/Case.antt =====
-- util.go: `ASCIIToUpper`, `ASCIIToLower` and their in-place forms. The result of an in-place form
-- is the slice's content when it returns.
pub mod Inplace
use cow.Base.{ℕ, zero, suc, ◌+◌, ◌-◌, ◌&&◌, [], ◌∷◌, leb, if◌then◌else◌, Bytes, length, get_or, set}

-- The copying forms: one fresh byte for each byte read.
unfoldable pub ascii_to_upper : Bytes → Bytes
ascii_to_upper [] = []
ascii_to_upper (c ∷ cs) = (if leb 97 c && leb c 122 then c - 32 else c) ∷ ascii_to_upper cs

unfoldable pub ascii_to_lower : Bytes → Bytes
ascii_to_lower [] = []
ascii_to_lower (c ∷ cs) = (if leb 65 c && leb c 90 then c + 32 else c) ∷ ascii_to_lower cs

-- One round: `b[i]` is rewritten where it stands.
upper_at : ℕ → Bytes → Bytes
upper_at i b = let c = get_or b i 0 in if leb 97 c && leb c 122 then set b i (c - 32) else b

lower_at : ℕ → Bytes → Bytes
lower_at i b = let c = get_or b i 0 in if leb 65 c && leb c 90 then set b i (c + 32) else b

-- The rounds left of the loop over `i`.
upper_from : ℕ → ℕ → Bytes → Bytes
unfolding upper_at
upper_from zero i b = b
upper_from (suc rounds) i b = upper_from rounds (i + 1) (upper_at i b)

lower_from : ℕ → ℕ → Bytes → Bytes
unfolding lower_at
lower_from zero i b = b
lower_from (suc rounds) i b = lower_from rounds (i + 1) (lower_at i b)

unfoldable pub ascii_to_upper_inplace : Bytes → Bytes
unfolding upper_from
ascii_to_upper_inplace b = upper_from (length b) 0 b

unfoldable pub ascii_to_lower_inplace : Bytes → Bytes
unfolding lower_from
ascii_to_lower_inplace b = lower_from (length b) 0 b
