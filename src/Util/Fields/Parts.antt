-- ===== src/Util/Fields/Parts.antt =====
-- util.go: the fields that `FieldsN` finds in a line have no line feed.
use cow.Base.{
  ℕ, zero, suc, ◌+◌, ◌-◌, ◌≤◌, ◌<◌, ◌≡◌, subst, inl, inr, Bool, true, false, Option, none, some,
  List, [], ◌∷◌, ◌++◌, arith, ltb, ◌==◌, if◌then◌else◌, Bool-cases, length, take, drop, All, Bytes,
}
use mathlib.Core.Option
use cow.Util.Fields.{on_field, scan_fields, last_field, write_field, fields_n}
use cow.Util.Space.{trim_space}
use cow.Util.OneLine.{IsOneLine, IsPart, IsPart-take_line, IsPart-drop, trim_space-drop-IsPart}

-- What the loop has found has no line feed.
Clean : Option (Option ℕ × List Bytes) → Type 0
Clean none = Unit
Clean (some (start, found)) = All IsPart found

CleanFields : Option (List Bytes) → Type 0
CleanFields none = Unit
CleanFields (some found) = All IsPart found

All-snoc : (l : List Bytes) (x : Bytes) → All IsPart l → IsPart x → All IsPart (l ++ x ∷ [])
All-snoc [] x a b = (b, tt)
All-snoc (y ∷ l) x (c, a) b = (c, All-snoc l x a b)

write-CleanFields :
    (n : ℕ) (found : List Bytes) (field : Bytes)
    → All IsPart found
    → IsPart field
    → CleanFields (write_field n found field)
unfolding CleanFields write_field
write-CleanFields n found field a b = elim (Bool-cases (ltb (length found) n)) [
  | inl y ↦ rw y (All-snoc found field a b)
  | inr y ↦ rw y tt
]

written-Clean :
    (o : Option (List Bytes)) (go : Option ℕ → List Bytes → Option (Option ℕ × List Bytes))
    → CleanFields o
    → ((st : Option ℕ) (l : List Bytes) → All IsPart l → Clean (go st l))
    → Clean (elim o [ none ↦ none | some found' ↦ go none found' ])
unfolding CleanFields Clean
written-Clean none go a next = tt
written-Clean (some found) go a next = next none found a

module _ (s : Bytes) (o : IsOneLine s) where
  on_field-Clean :
      (n i : ℕ) (start : Option ℕ) (issep : Bool) (found : List Bytes)
      (go : Option ℕ → List Bytes → Option (Option ℕ × List Bytes))
      → i < length s
      → All IsPart found
      → ((st : Option ℕ) (l : List Bytes) → All IsPart l → Clean (go st l))
      → Clean (on_field s n i start issep found go)
  unfolding Clean on_field
  on_field-Clean n i none issep found go h a next = next none found a
  on_field-Clean n i (some f) false found go h a next = next (some f) found a
  on_field-Clean n i (some f) true found go h a next = elim (Bool-cases (length found == n - 1)) [
    | inl e ↦ rw e a
    | inr e ↦
        let field = IsPart-drop f (take i s) (IsPart-take_line i s o h) in
        rw e (
          written-Clean (write_field n found (drop f (take i s))) go
            (write-CleanFields n found (drop f (take i s)) a field) next)
  ]

  scan_fields-Clean :
      (n rounds i : ℕ) (start : Option ℕ) (found : List Bytes)
      → rounds + i ≤ length s
      → All IsPart found
      → Clean (scan_fields s n rounds i start found)
  unfolding scan_fields Clean
  scan_fields-Clean n zero i start found h a = a
  scan_fields-Clean n (suc rounds) i start found h a =
      on_field-Clean n i _ _ found _ (omega arith) a
        (λ st l b. scan_fields-Clean n rounds (i + 1) st l (omega arith) b)

  mapped-CleanFields :
      (b : Bool) (found : List Bytes) (w : Option (List Bytes))
      → All IsPart found
      → CleanFields w
      → CleanFields (Option.map (λ found'. if b then found else found') w)
  unfolding CleanFields
  mapped-CleanFields b found none a c = tt
  mapped-CleanFields true found (some l) a c = a
  mapped-CleanFields false found (some l) a c = c

  last-CleanFields :
      (n : ℕ) (out : Option (Option ℕ × List Bytes))
      → Clean out
      → CleanFields
          (elim out [ none ↦ none | some (start, found) ↦ last_field s (suc n) start found ])
  unfolding Clean CleanFields last_field
  last-CleanFields n none a = tt
  last-CleanFields n (some (none, found)) a = a
  last-CleanFields n (some (some f, found)) a =
      mapped-CleanFields _ found _ a
        (write-CleanFields (suc n) found (trim_space (drop f s)) a (trim_space-drop-IsPart f s o))

  fields_n-CleanFields : (n : ℕ) → CleanFields (fields_n s n)
  unfolding fields_n CleanFields
  fields_n-CleanFields zero = tt
  fields_n-CleanFields (suc n) =
      last-CleanFields n _ (scan_fields-Clean (suc n) (length s) 0 none [] (omega arith) tt)

  -- The fields of a line have no line feed.
  pub fields_n-parts : (n : ℕ) (found : List Bytes) → fields_n s n ≡ some found → All IsPart found
  unfolding CleanFields
  fields_n-parts n found e = subst CleanFields e (fields_n-CleanFields n)
