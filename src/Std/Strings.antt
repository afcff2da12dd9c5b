-- ===== src/Std/Strings.antt =====
-- Go's `strings`, on ASCII text.
use cow.Base.{
  ℕ, ◌+◌, Bool, ◌&&◌, ◌||◌, none, some, List, [], ◌∷◌, leb, ◌==◌, if◌then◌else◌, take, drop, Bytes,
  index_byte,
}

-- The ASCII bytes among `unicode.IsSpace`.
unfoldable pub is_white : ℕ → Bool
is_white c = (leb 9 c && leb c 13) || c == 32

unfoldable pub trim_left : (ℕ → Bool) → Bytes → Bytes
trim_left p [] = []
trim_left p (c ∷ s) = if p c then trim_left p s else c ∷ s

unfoldable pub trim_right : (ℕ → Bool) → Bytes → Bytes
trim_right p [] = []
trim_right p (c ∷ s) = elim (trim_right p s) [ [] ↦ if p c then [] else c ∷ [] | d ∷ t ↦ c ∷ d ∷ t ]

-- `strings.TrimSpace`.
unfoldable pub trim_white : Bytes → Bytes
unfolding trim_left trim_right is_white
trim_white s = trim_right is_white (trim_left is_white s)

-- `strings.Trim(s, cutset)` at a cutset of one byte.
unfoldable pub trim_byte : ℕ → Bytes → Bytes
unfolding trim_left trim_right
trim_byte b s = trim_right (λ c. c == b) (trim_left (λ c. c == b) s)

-- `strings.SplitN(s, sep, 2)` at a one-byte separator.
unfoldable pub split_2 : ℕ → Bytes → List Bytes
split_2 b s = elim (index_byte b s) [ none ↦ s ∷ [] | some i ↦ take i s ∷ drop (i + 1) s ∷ [] ]

-- `strings.TrimPrefix` and `strings.TrimSuffix` at one byte.
unfoldable pub trim_prefix_byte : ℕ → Bytes → Bytes
trim_prefix_byte b [] = []
trim_prefix_byte b (c ∷ s) = if c == b then s else c ∷ s

unfoldable pub trim_suffix_byte : ℕ → Bytes → Bytes
trim_suffix_byte b [] = []
trim_suffix_byte b (c ∷ []) = if c == b then [] else c ∷ []
trim_suffix_byte b (c ∷ d ∷ s) = c ∷ trim_suffix_byte b (d ∷ s)
