-- ===== src/Prelude/Assoc.antt =====
-- A Go map with string keys, as an association list. The program reads a map in no order that it
-- relies on: where it ranges over keys it sorts them.
use mathlib.Core.Path.{◌≡◌, refl}
use mathlib.Core.Bool.{Bool, true, false, ◌||◌}
use mathlib.Core.Option.{Option, none, some}
use mathlib.Core.List.{List, [], ◌∷◌}
use native.Mathlib.Omega.{arith}
use cloudy_neigh.Prelude.Tests.{if◌then◌else◌, Bool-cases}
use mathlib.Core.Logic.{inl, inr}
use cloudy_neigh.Prelude.Text.{Bytes, bytes_eq, bytes_eq_iff}

abbrev pub Assoc {ℓ} : Type ℓ → Type ℓ
Assoc V = List (Bytes × V)

-- Whether a key is in a list of keys.
unfoldable pub member : Bytes → List Bytes → Bool
member k [] = false
member k (j ∷ l) = bytes_eq j k || member k l

-- No key stands twice.
abbrev pub IsUnique : List Bytes → Type 0
IsUnique [] = Unit
IsUnique (k ∷ l) = (member k l ≡ false) × IsUnique l

module _ {ℓ} {V : Type ℓ} where
  abbrev pub keys : Assoc V → List Bytes
  keys [] = []
  keys ((j, v) ∷ m) = j ∷ keys m

  -- m[k]
  unfoldable pub lookup : Bytes → Assoc V → Option V
  lookup k [] = none
  lookup k ((j, v) ∷ m) = if bytes_eq j k then some v else lookup k m

  -- m[k] = v
  unfoldable pub insert : Bytes → V → Assoc V → Assoc V
  insert k v [] = (k, v) ∷ []
  insert k v ((j, w) ∷ m) = if bytes_eq j k then (k, v) ∷ m else (j, w) ∷ insert k v m

  -- delete(m, k)
  unfoldable pub delete : Bytes → Assoc V → Assoc V
  delete k [] = []
  delete k ((j, w) ∷ m) = let rest = delete k m in if bytes_eq j k then rest else (j, w) ∷ rest

  pub lookup-insert :
      (k j : Bytes) (v : V) (m : Assoc V)
      → lookup j (insert k v m) ≡ (if bytes_eq k j then some v else lookup j m)
  unfolding lookup insert
  lookup-insert k j v [] = refl
  lookup-insert k j v ((i, w) ∷ m) =
      ground (arith, bytes_eq_iff k j, bytes_eq_iff i k, bytes_eq_iff i j, lookup-insert k j v m)

  pub lookup-delete :
      (k j : Bytes) (m : Assoc V)
      → lookup j (delete k m) ≡ (if bytes_eq k j then none else lookup j m)
  unfolding lookup delete
  lookup-delete k j [] = ground arith
  lookup-delete k j ((i, w) ∷ m) =
      ground (arith, bytes_eq_iff k j, bytes_eq_iff i k, bytes_eq_iff i j, lookup-delete k j m)

  pub member-insert :
      (k j : Bytes) (v : V) (m : Assoc V)
      → member j (keys (insert k v m)) ≡ bytes_eq k j || member j (keys m)
  unfolding member insert
  member-insert k j v [] = refl
  member-insert k j v ((i, w) ∷ m) =
      ground (arith, bytes_eq_iff i k, bytes_eq_iff i j, member-insert k j v m, bytes_eq_iff k j)

  pub member-delete :
      (k j : Bytes) (m : Assoc V)
      → member j (keys (delete k m)) ≡ (if bytes_eq k j then false else member j (keys m))
  unfolding member delete
  member-delete k j [] = ground arith
  member-delete k j ((i, w) ∷ m) =
      ground (arith, bytes_eq_iff i k, bytes_eq_iff i j, member-delete k j m, bytes_eq_iff k j)

  pub insert-IsUnique :
      (k : Bytes) (v : V) (m : Assoc V) → IsUnique (keys m) → IsUnique (keys (insert k v m))
  unfolding insert
  insert-IsUnique k v [] h = (unfold member in refl, tt)
  insert-IsUnique k v ((i, w) ∷ m) h =
      ground
        (arith, insert-IsUnique k v m, member-insert k i v m, bytes_eq_iff i k, bytes_eq_iff k i)

  pub delete-IsUnique : (k : Bytes) (m : Assoc V) → IsUnique (keys m) → IsUnique (keys (delete k m))
  unfolding delete
  delete-IsUnique k [] h = tt
  delete-IsUnique k ((i, w) ∷ m) h = ground (arith, delete-IsUnique k m, member-delete k i m)

  pub lookup-some_of_member :
      (k : Bytes) (m : Assoc V) → member k (keys m) ≡ true → (v : V) × (lookup k m ≡ some v)
  unfolding member lookup
  lookup-some_of_member k [] h = cc
  lookup-some_of_member k ((i, w) ∷ m) h = elim (Bool-cases (bytes_eq i k)) [
    | inl is_key ↦ (w, rw is_key refl)
    | inr other ↦ let (v, e) = lookup-some_of_member k m (rw other at h) in (v, rw other e)
  ]

  -- A key has a value exactly when it is among the keys.
  pub lookup-none_of_not_member :
      (k : Bytes) (m : Assoc V) → member k (keys m) ≡ false → lookup k m ≡ none
  unfolding member lookup
  lookup-none_of_not_member k [] h = refl
  lookup-none_of_not_member k ((i, w) ∷ m) h = ground (arith, lookup-none_of_not_member k m)

  pub member-true_of_lookup :
      (k : Bytes) (v : V) (m : Assoc V) → lookup k m ≡ some v → member k (keys m) ≡ true
  unfolding member lookup
  member-true_of_lookup k v [] h = cc
  member-true_of_lookup k v ((i, w) ∷ m) h = ground (arith, member-true_of_lookup k v m)
