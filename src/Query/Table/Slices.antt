-- ===== src/Query/Table/Slices.antt =====
-- Reads and writes of lists at an index, and of association lists in every entry.
use native.Mathlib.Nat.{mul-le-mul_right}
use cloudy_neigh.Prelude.{
  ℕ, zero, suc, ◌+◌, ◌*◌, ◌≤◌, ◌<◌, ◌≡◌, ◌≢◌, refl, ap, Option, none, some, List, [], ◌∷◌, ◌++◌,
  Bytes, bytes_eq, bytes_eq_iff, length, take, arith, drop-append, ◌∙◌, take-all, Bool-cases, inl,
  inr,
}
use cloudy_neigh.Prelude.Assoc
use cloudy_neigh.Prelude.Assoc.{Assoc}
use cloudy_neigh.Query.Table.{at_or, set, copy_at, slice, map_values}

module _ {ℓ} {A : Type ℓ} where
  pub length-set : (i : ℕ) (a : A) (xs : List A) → length (set i a xs) ≡ length xs
  length-set zero a [] = refl
  length-set (suc i) a [] = refl
  length-set zero a (x ∷ xs) = refl
  length-set (suc i) a (x ∷ xs) = ap suc (length-set i a xs)

  pub length-copy_at :
      (offset : ℕ) (src dst : List A) → length (copy_at offset src dst) ≡ length dst
  length-copy_at zero [] [] = refl
  length-copy_at zero (s ∷ src) [] = refl
  length-copy_at (suc offset) src [] = refl
  length-copy_at zero [] (d ∷ dst) = refl
  length-copy_at zero (s ∷ src) (d ∷ dst) = ap suc (length-copy_at zero src dst)
  length-copy_at (suc offset) src (d ∷ dst) = ap suc (length-copy_at offset src dst)

  pub at_or-set :
      (default a : A) (i : ℕ) (xs : List A) → i < length xs → at_or default i (set i a xs) ≡ a
  at_or-set default a i [] h = absurd (omega arith)
  at_or-set default a zero (x ∷ xs) h = refl
  at_or-set default a (suc i) (x ∷ xs) h = at_or-set default a i xs (omega arith)

  pub at_or-set_other :
      (default a : A) (i j : ℕ) (xs : List A)
      → i ≢ j
      → at_or default j (set i a xs) ≡ at_or default j xs
  at_or-set_other default a zero j [] h = refl
  at_or-set_other default a (suc i) j [] h = refl
  at_or-set_other default a zero zero (x ∷ xs) h = absurd (h refl)
  at_or-set_other default a zero (suc j) (x ∷ xs) h = refl
  at_or-set_other default a (suc i) zero (x ∷ xs) h = refl
  at_or-set_other default a (suc i) (suc j) (x ∷ xs) h =
      at_or-set_other default a i j xs (λ e. h (ap suc e))

  pub at_or-append :
      (default : A) (i : ℕ) (xs ys : List A)
      → i < length xs
      → at_or default i (xs ++ ys) ≡ at_or default i xs
  at_or-append default i [] ys h = absurd (omega arith)
  at_or-append default zero (x ∷ xs) ys h = refl
  at_or-append default (suc i) (x ∷ xs) ys h = at_or-append default i xs ys (omega arith)

  pub at_or-append_last :
      (default a : A) (n : ℕ) (xs : List A) → length xs ≡ n → at_or default n (xs ++ (a ∷ [])) ≡ a
  at_or-append_last default a zero [] h = refl
  at_or-append_last default a (suc n) [] h = absurd (omega arith)
  at_or-append_last default a zero (x ∷ xs) h = absurd (omega arith)
  at_or-append_last default a (suc n) (x ∷ xs) h = at_or-append_last default a n xs (omega arith)

  take-copy_at :
      (n : ℕ) (src dst : List A)
      → length src ≡ n
      → n ≤ length dst
      → take n (copy_at zero src dst) ≡ src
  take-copy_at zero [] dst h k = refl
  take-copy_at zero (s ∷ src) dst h k = absurd (omega arith)
  take-copy_at (suc n) [] dst h k = absurd (omega arith)
  take-copy_at (suc n) (s ∷ src) [] h k = absurd (omega arith)
  take-copy_at (suc n) (s ∷ src) (d ∷ dst) h k =
      ap (λ (l : List A). s ∷ l) (take-copy_at n src dst (omega arith) (omega arith))

  -- What was copied is there.
  pub slice-copy_at :
      (offset n : ℕ) (src dst : List A)
      → length src ≡ n
      → offset + n ≤ length dst
      → slice offset n (copy_at offset src dst) ≡ src
  slice-copy_at zero n src dst h k = take-copy_at n src dst h (omega arith)
  slice-copy_at (suc offset) zero [] [] h k = refl
  slice-copy_at (suc offset) zero (s ∷ src) [] h k = absurd (omega arith)
  slice-copy_at (suc offset) (suc n) src [] h k = absurd (omega arith)
  slice-copy_at (suc offset) n src (d ∷ dst) h k = slice-copy_at offset n src dst h (omega arith)

  -- What was appended is there.
  pub slice-append :
      (offset n : ℕ) (xs ys : List A)
      → length xs ≡ offset
      → length ys ≡ n
      → slice offset n (xs ++ ys) ≡ ys
  slice-append offset n xs ys h k =
      ap (take n) (drop-append offset xs ys h) ∙ take-all n ys (omega arith)

-- The value of a key behind a map over the entries.
abbrev pub over {ℓ κ} : {V : Type ℓ} {W : Type κ} → (V → W) → Option V → Option W
over f none = none
over f (some v) = some (f v)

pub lookup-map_values {ℓ κ} :
    {V : Type ℓ} {W : Type κ} (f : Bytes → V → W) (k : Bytes) (m : Assoc V)
    → Assoc.lookup k (map_values f m) ≡ over (f k) (Assoc.lookup k m)
unfolding Assoc.lookup
lookup-map_values f k [] = refl
lookup-map_values f k ((j, v) ∷ m) = elim (Bool-cases (bytes_eq j k)) [
  | inl same ↦ rw same (ap (λ (i : Bytes). some (f i v)) ((bytes_eq_iff j k).0 same))
  | inr other ↦ rw other (lookup-map_values f k m)
]

-- A row of a width lies in as many rows.
pub row_le : (row n dim : ℕ) → row < n → row * dim + dim ≤ n * dim
row_le row n dim h = omega (arith, mul-le-mul_right dim h)
