-- ===== src/Util/Fields.antt =====
-- util.go: `FieldsN`. `none` is the panic of an index out of range.
pub mod Count
pub mod Parts
use cow.Base.{
  ℕ, zero, suc, ◌+◌, ◌-◌, Bool, true, false, ◌||◌, Option, none, some, List, [], ◌∷◌, ◌++◌, map,
  ltb, ◌==◌, if◌then◌else◌, length, get_or, take, drop, Bytes,
}
use mathlib.Core.Option
use cow.Util.Space.{trim_space}

is_sep : ℕ → Bool
is_sep c = c == b' ' || c == b'\t'

-- `if fieldStart < 0 && !issep { fieldStart = i }`
abbrev start_at : Option ℕ → Bool → ℕ → Option ℕ
start_at none true i = none
start_at none false i = some i
start_at (some f) issep i = some f

-- `res[na] = field; na++`, the fields written so far being `res[:na]`.
write_field : ℕ → List Bytes → Bytes → Option (List Bytes)
write_field n found field = if ltb (length found) n then some (found ++ (field ∷ [])) else none

-- The rest of a round, `go` being the rounds after it.
abbrev on_field :
    Bytes
    → ℕ
    → ℕ
    → Option ℕ
    → Bool
    → List Bytes
    → (Option ℕ → List Bytes → Option (Option ℕ × List Bytes))
    → Option (Option ℕ × List Bytes)
unfolding write_field
on_field s n i (some f) true found go =
    if length found == n - 1
    then some (some f, found)
    else elim (write_field n found (drop f (take i s))) [
      | none ↦ none
      | some found' ↦ go none found'
    ]
on_field s n i start issep found go = go start found

-- The rounds left of the loop over `i`: `fieldStart` and the fields when it ends.
scan_fields : Bytes → ℕ → ℕ → ℕ → Option ℕ → List Bytes → Option (Option ℕ × List Bytes)
unfolding is_sep
scan_fields s n zero i start found = some (start, found)
scan_fields s n (suc rounds) i start found =
    let issep = is_sep (get_or s i 0) in
    on_field s n i (start_at start issep i) issep found
      (λ start' found'. scan_fields s n rounds (i + 1) start' found')

-- The field that is open when the loop ends; an empty one is written, but not counted.
last_field : Bytes → ℕ → Option ℕ → List Bytes → Option (List Bytes)
unfolding write_field
last_field s n none found = some found
last_field s n (some f) found =
    Option.map (λ found'. if length (trim_space (drop f s)) == 0 then found else found')
      (write_field n found (trim_space (drop f s)))

unfoldable pub fields_n : Bytes → ℕ → Option (List Bytes)
unfolding scan_fields last_field
fields_n s zero = some []
fields_n s (suc n) = elim (scan_fields s (suc n) (length s) 0 none []) [
  | none ↦ none
  | some (start, found) ↦ last_field s (suc n) start found
]
