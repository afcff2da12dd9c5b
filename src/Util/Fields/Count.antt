-- ===== src/Util/Fields/Count.antt =====
-- util.go: how many fields `FieldsN` finds.
use cow.Base.{
  ℕ, zero, suc, ◌+◌, ◌-◌, ◌≤◌, ◌≡◌, refl, inl, inr, Bool, true, false, Option, none, some, List, [],
  ◌∷◌, ◌++◌, arith, ◌==◌, Bool-cases, length, take, drop, length-append, Bytes,
}
use cow.Util.Fields.{on_field, scan_fields, last_field, write_field, fields_n}
use cow.Util.Space.{trim_space}

-- What the loop has found so far: fewer than `n + 1` fields.
Few : ℕ → Option (Option ℕ × List Bytes) → Type 0
Few n none = ⊥
Few n (some (start, found)) = length found ≤ n

AtMost : ℕ → Option (List Bytes) → Type 0
AtMost n none = ⊥
AtMost n (some found) = length found ≤ n

write-AtMost :
    (n : ℕ) (found : List Bytes) (field : Bytes)
    → length found ≤ n
    → write_field (suc n) found field ≡ some (found ++ (field ∷ []))
unfolding write_field
write-AtMost n found field h = ground arith

room : (k n : ℕ) → k ≤ n → (k == suc n - 1) ≡ false → k + 1 ≤ n
room k n h e = ground arith

on_field-Few :
    (s : Bytes) (n i : ℕ) (start : Option ℕ) (issep : Bool) (found : List Bytes)
    (go : Option ℕ → List Bytes → Option (Option ℕ × List Bytes))
    → ((st : Option ℕ) (l : List Bytes) → length l ≤ n → Few n (go st l))
    → length found ≤ n
    → Few n (on_field s (suc n) i start issep found go)
unfolding Few on_field
on_field-Few s n i none issep found go next h = next none found h
on_field-Few s n i (some f) false found go next h = next (some f) found h
on_field-Few s n i (some f) true found go next h = elim (Bool-cases (length found == suc n - 1)) [
  | inl e ↦ rw e h
  | inr e ↦
      rw (e, write-AtMost n found (drop f (take i s)) h)
        (next none (found ++ (drop f (take i s) ∷ []))
          (rw length-append (room (length found) n h e)))
]

scan_fields-Few :
    (s : Bytes) (n rounds i : ℕ) (start : Option ℕ) (found : List Bytes)
    → length found ≤ n
    → Few n (scan_fields s (suc n) rounds i start found)
unfolding scan_fields Few
scan_fields-Few s n zero i start found h = h
scan_fields-Few s n (suc rounds) i start found h =
    on_field-Few s n i _ _ found _ (λ st l b. scan_fields-Few s n rounds (i + 1) st l b) h

last-AtMost :
    (s : Bytes) (n : ℕ) (out : Option (Option ℕ × List Bytes))
    → Few n out
    → AtMost
        (suc n)
        (elim out [ none ↦ none | some (start, found) ↦ last_field s (suc n) start found ])
unfolding Few AtMost last_field
last-AtMost s n none h = h
last-AtMost s n (some (none, found)) h = omega arith
last-AtMost s n (some (some f, found)) h =
    rw (write-AtMost n found (trim_space (drop f s)) h)
      (elim (Bool-cases (length (trim_space (drop f s)) == 0)) [
        | inl e ↦ rw e (omega arith)
        | inr e ↦ rw (e, length-append) (omega arith)
      ])

of_AtMost :
    {n : ℕ} (out : Option (List Bytes))
    → AtMost n out
    → (found : List Bytes) × (out ≡ some found) × (length found ≤ n)
unfolding AtMost
of_AtMost none h = elim h [ ]
of_AtMost (some found) h = (found, refl, h)

-- Whatever the line, no field is written out of the range of the result, and at most as many
-- fields are returned as were asked for.
pub fields_n-count :
    (s : Bytes) (n : ℕ) → (found : List Bytes) × (fields_n s n ≡ some found) × (length found ≤ n)
unfolding fields_n
fields_n-count s zero = ([], refl, omega arith)
fields_n-count s (suc n) =
    of_AtMost _ (last-AtMost s n _ (scan_fields-Few s n (length s) 0 none [] (omega arith)))
