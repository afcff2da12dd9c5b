-- ===== src/Util/Case/Inplace.antt =====
-- util.go: the in-place case functions compute what the copying ones do.
use cow.Base.{
  ℕ, ◌+◌, ◌-◌, ◌≡◌, refl, sym, ap, ap₂, ◌∙◌, true, false, ◌&&◌, [], ◌∷◌, ◌++◌, arith, leb,
  if◌then◌else◌, length, get_or-append, set-append, length-snoc, Bytes,
}
use mathlib.Core.List.{append_assoc}
use cow.Util.Case.{
  ascii_to_upper, ascii_to_lower, upper_at, lower_at, upper_from, lower_from,
  ascii_to_upper_inplace, ascii_to_lower_inplace,
}

upper_at-append :
    (xs : Bytes) (y : ℕ) (ys : Bytes)
    → upper_at (length xs) (xs ++ y ∷ ys) ≡ xs ++ (if leb 97 y && leb y 122 then y - 32 else y) ∷ ys
unfolding upper_at
upper_at-append xs y ys = ground (arith, get_or-append xs y ys 0, set-append xs y ys (y - 32))

lower_at-append :
    (xs : Bytes) (y : ℕ) (ys : Bytes)
    → lower_at (length xs) (xs ++ y ∷ ys) ≡ xs ++ (if leb 65 y && leb y 90 then y + 32 else y) ∷ ys
unfolding lower_at
lower_at-append xs y ys = ground (arith, get_or-append xs y ys 0, set-append xs y ys (y + 32))

-- The loop has done `xs` and stands before `ys`.
upper_from-append :
    (xs ys : Bytes) → upper_from (length ys) (length xs) (xs ++ ys) ≡ xs ++ ascii_to_upper ys
unfolding ascii_to_upper upper_from
upper_from-append xs [] = refl
upper_from-append xs (y ∷ ys) =
    let v : ℕ = if leb 97 y && leb y 122 then y - 32 else y in
    ap (upper_from (length ys) (length xs + 1)) (upper_at-append xs y ys)
    ∙ ap₂ (upper_from (length ys)) (sym (length-snoc xs v)) (sym (append_assoc xs (v ∷ []) ys))
    ∙ upper_from-append (xs ++ v ∷ []) ys
    ∙ append_assoc xs (v ∷ []) (ascii_to_upper ys)

lower_from-append :
    (xs ys : Bytes) → lower_from (length ys) (length xs) (xs ++ ys) ≡ xs ++ ascii_to_lower ys
unfolding ascii_to_lower lower_from
lower_from-append xs [] = refl
lower_from-append xs (y ∷ ys) =
    let v : ℕ = if leb 65 y && leb y 90 then y + 32 else y in
    ap (lower_from (length ys) (length xs + 1)) (lower_at-append xs y ys)
    ∙ ap₂ (lower_from (length ys)) (sym (length-snoc xs v)) (sym (append_assoc xs (v ∷ []) ys))
    ∙ lower_from-append (xs ++ v ∷ []) ys
    ∙ append_assoc xs (v ∷ []) (ascii_to_lower ys)

-- The loops that rewrite a slice byte by byte, `ASCIIToUpperInplace` and `ASCIIToLowerInplace`,
-- leave in it what `ASCIIToUpper` and `ASCIIToLower` return.
pub ascii_inplace-eq-copy :
    (b : Bytes)
    → (ascii_to_upper_inplace b ≡ ascii_to_upper b) × (ascii_to_lower_inplace b ≡ ascii_to_lower b)
unfolding ascii_to_upper_inplace ascii_to_lower_inplace
ascii_inplace-eq-copy b = (upper_from-append [] b, lower_from-append [] b)

lower_lower : (c : ℕ) → (leb 65 c && leb c 90) ≡ true → (leb 65 (c + 32) && leb (c + 32) 90) ≡ false
lower_lower c h = ground arith

-- A lowered text is not changed by lowering it again.
pub ascii_to_lower_idem : (b : Bytes) → ascii_to_lower (ascii_to_lower b) ≡ ascii_to_lower b
unfolding ascii_to_lower
ascii_to_lower_idem [] = refl
ascii_to_lower_idem (c ∷ cs) = ground (arith, ascii_to_lower_idem cs)
