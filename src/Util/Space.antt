-- ===== src/Util/Space.antt =====
-- util.go: `IsSpace`, `TrimSpace` and `TrimTrailingSpace`. A loop's index is the number of bytes on
-- its left; `end` of the source is one less than the number here.
pub mod Trim
use cow.Base.{
  ℕ, zero, suc, Bool, ◌&&◌, ◌||◌, [], ◌∷◌, ◌==◌, leb, if◌then◌else◌, Bytes, length, get_or, take,
  drop,
}

-- The table `spaceTbl`.
unfoldable pub is_space : ℕ → Bool
is_space c = c == b'\t' || c == b'\n' || c == b'\r' || c == b' '

unfoldable pub is_digit : ℕ → Bool
is_digit c = leb b'0' c && leb c b'9'

-- `for ; st < len(s) && IsSpace(s[st]); st++ {}`
unfoldable pub trim_start : Bytes → ℕ
trim_start [] = 0
trim_start (c ∷ cs) = if is_space c then suc (trim_start cs) else 0

-- `for ; end >= 0 && IsSpace(s[end]); end-- {}` from `end + 1` on.
unfoldable pub trim_end : Bytes → ℕ → ℕ
trim_end s zero = 0
trim_end s (suc end) = if is_space (get_or s end 0) then trim_end s end else suc end

unfoldable pub trim_space : Bytes → Bytes
unfolding trim_start trim_end is_space
trim_space s =
    let st = trim_start s in if st == length s then [] else drop st (take (trim_end s (length s)) s)

unfoldable pub trim_trailing_space : Bytes → Bytes
unfolding trim_end is_space
trim_trailing_space s = take (trim_end s (length s)) s
