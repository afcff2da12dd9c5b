-- ===== src/Base/Maps.antt =====
-- Go's maps with string keys, as association lists in which a key stands at most once when the
-- map is built by `insert`.
use mathlib.Core.Path.{◌≡◌, refl}
use mathlib.Core.Bool.{true, false}
use mathlib.Core.List.{List, [], ◌∷◌}
use mathlib.Core.Option.{Option, none, some}
use native.Mathlib.Omega.{arith}
use mathlib.Core.Logic.{inl, inr}
use cow.Base.Tests.{if◌then◌else◌, Bool-cases}
use cow.Base.Text.{Bytes, bytes_eq, bytes_eq_refl, eq_of_bytes_eq}

pub bytes_eq_sym : (a b : Bytes) → bytes_eq a b ≡ bytes_eq b a
bytes_eq_sym a b = elim (Bool-cases (bytes_eq a b)) [
  | inl e ↦ rw (eq_of_bytes_eq a b e)
  | inr n ↦ elim (Bool-cases (bytes_eq b a)) [
    | inl e ↦ rw (eq_of_bytes_eq b a e)
    | inr m ↦ rw (n, m)
  ]
]

abbrev pub Map {ℓ} : Type ℓ → Type ℓ
Map V = List (Bytes × V)

module _ {ℓ} {V : Type ℓ} where
  -- `v, ok := m[k]`
  unfoldable pub lookup : Bytes → Map V → Option V
  lookup k [] = none
  lookup k ((j, v) ∷ m) = if bytes_eq j k then some v else lookup k m

  -- `m[k] = v`
  unfoldable pub insert : Bytes → V → Map V → Map V
  insert k v [] = (k, v) ∷ []
  insert k v ((j, w) ∷ m) = if bytes_eq j k then (k, v) ∷ m else (j, w) ∷ insert k v m

  -- `delete(m, k)`
  unfoldable pub delete : Bytes → Map V → Map V
  delete k [] = []
  delete k ((j, w) ∷ m) = if bytes_eq j k then delete k m else (j, w) ∷ delete k m

  pub lookup-insert :
      (k j : Bytes) (v : V) (m : Map V)
      → lookup j (insert k v m) ≡ (if bytes_eq k j then some v else lookup j m)
  unfolding lookup insert
  lookup-insert k j v [] = refl
  lookup-insert k j v ((i, w) ∷ m) = elim (Bool-cases (bytes_eq i k)) [
    | inl e ↦ rw e (
        rw (eq_of_bytes_eq i k e)
          (elim (Bool-cases (bytes_eq k j)) [ inl f ↦ rw f | inr f ↦ rw f ]))
    | inr n ↦ rw n (elim (Bool-cases (bytes_eq i j)) [
      | inl e ↦ ground (arith, eq_of_bytes_eq i j e, bytes_eq_sym k j)
      | inr f ↦ rw f (lookup-insert k j v m)
    ])
  ]

  pub lookup-insert_self : (k : Bytes) (v : V) (m : Map V) → lookup k (insert k v m) ≡ some v
  lookup-insert_self k v m = rw (lookup-insert k k v m, bytes_eq_refl k)

  pub lookup-delete :
      (k j : Bytes) (m : Map V)
      → lookup j (delete k m) ≡ (if bytes_eq k j then none else lookup j m)
  unfolding lookup delete
  lookup-delete k j [] = ground arith
  lookup-delete k j ((i, w) ∷ m) = elim (Bool-cases (bytes_eq i k)) [
    | inl e ↦ rw e (ground (arith, eq_of_bytes_eq i k e, lookup-delete k j m))
    | inr n ↦ rw n (elim (Bool-cases (bytes_eq i j)) [
      | inl e ↦ ground (arith, eq_of_bytes_eq i j e, bytes_eq_sym k j)
      | inr f ↦ rw f (lookup-delete k j m)
    ])
  ]

module _ {ℓ} {V : Type ℓ} where
  -- No key stands twice, as in every map that Go builds.
  abbrev pub Distinct : Map V → Type ℓ
  Distinct [] = Unit
  Distinct ((k, v) ∷ m) = (lookup k m ≡ none) × Distinct m

  pub insert-Distinct : (k : Bytes) (v : V) (m : Map V) → Distinct m → Distinct (insert k v m)
  unfolding insert lookup
  insert-Distinct k v [] d = (refl, tt)
  insert-Distinct k v ((j, w) ∷ m) d = elim (Bool-cases (bytes_eq j k)) [
    | inl e ↦ rw e (rw (← eq_of_bytes_eq j k e) d)
    | inr n ↦ rw n (rw (lookup-insert k j v m, bytes_eq_sym k j, n) d.0, insert-Distinct k v m d.1)
  ]

  pub lookup_head :
      (k j : Bytes) (v : V) (m : Map V) → bytes_eq j k ≡ true → lookup k ((j, v) ∷ m) ≡ some v
  unfolding lookup
  lookup_head k j v m e = rw e

  pub lookup_tail :
      (k j : Bytes) (v : V) (m : Map V) → bytes_eq j k ≡ false → lookup k ((j, v) ∷ m) ≡ lookup k m
  unfolding lookup
  lookup_tail k j v m e = rw e
