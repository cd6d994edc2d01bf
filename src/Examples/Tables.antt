-- ===== src/Examples/Tables.antt =====
-- vector/ and query/ at concrete inputs.
use cloudy_neigh.Prelude.{
  ℕ, ◌+◌, ◌*◌, ◌^◌, ◌≡◌, ◌<◌, ◌/◌, ◌%◌, refl, none, some, List, [], ◌∷◌, codes, arith, ok, err,
  Result, ltb, ◌==◌, if◌then◌else◌, bytes_eq, is_empty,
}
use cloudy_neigh.Prelude.Assoc
use cloudy_neigh.Prelude.Assoc.{Assoc}
use cloudy_neigh.Ingest.Messages.{string_value}
use cloudy_neigh.Vector.Half.{fp16_from_float32, fp16_to_float32, encode_fp16}
use cloudy_neigh.Vector.Half.Rounding.{
  fp16_from_float32-fp16_to_float32, fp16_from_float32-some, Nearest,
}
use cloudy_neigh.Query.Numbers.{Arithmetic, Kernels}
use cloudy_neigh.Query.Table
use cloudy_neigh.Query.Table.{Table, new_table, upsert, get}
use cloudy_neigh.Query.Table.Validity.{IsValid, IsValid-new}
use cloudy_neigh.Query.Table.Validity.Rows.{upsert-IsValid}
use cloudy_neigh.Query.Table.Reads.{HasVector, get-delete, upsert-vector_at}

-- The half of 1, and one unit more.
fp16_from_float32-fp16_to_float32_example :
    fp16_from_float32 (fp16_to_float32 (λ n. n) (λ n. n) 15361) ≡ some 15361
fp16_from_float32-fp16_to_float32_example =
    fp16_from_float32-fp16_to_float32 (λ n. n) (λ n. n) 15361 (omega arith) (omega arith)
      (omega arith)

-- The float32 behind 1.
one_run : fp16_from_float32 1065353217 ≡ some 15360
unfolding fp16_from_float32
one_run = refl

fp16_from_float32-some_example :
    (15360 / 2 ^ 15 ≡ 1065353217 / 2 ^ 31 % 2)
    × (15360 % 2 ^ 15 < 31 * 2 ^ 10)
    × Nearest 1065353217 15360
fp16_from_float32-some_example = fp16_from_float32-some 1065353217 15360 one_run

-- Arithmetic of natural numbers, for these inputs, and kernels of half precision that decode a half to
-- itself.
abbrev a_numbers : Arithmetic
a_numbers = record {
  zero_value = 0;
  one_value = 1;
  minus_one = 0;
  add = λ a b. a + b;
  subtract = λ a b. a;
  multiply = λ a b. a * b;
  inverse_root = λ a. a;
  is_zero = λ a. a == 0;
  less = ltb;
}

abbrev first_or_zero : List ℕ → ℕ
first_or_zero [] = 0
first_or_zero (x ∷ xs) = x

abbrev a_kernels : Kernels
a_kernels = record {
  dot = λ a b. first_or_zero a * first_or_zero b;
  l2 = λ a b. first_or_zero a + first_or_zero b;
  half = some (record {
    dot16 = λ a b. first_or_zero a * first_or_zero b;
    l216 = λ a b. first_or_zero a + first_or_zero b;
    decode16 = λ d. d;
  });
}

abbrev table_of : Result Table → Table
table_of (ok t) = t
table_of (err e) = new_table

-- Two documents with a vector each, and an attribute.
abbrev with_d : Table
with_d = table_of (
    upsert a_numbers a_kernels (codes "d") ((codes "v", 1065353216 ∷ []) ∷ [])
      ((codes "color", some (string_value (codes "red"))) ∷ []) new_table)

abbrev with_e : Table
with_e =
    table_of (upsert a_numbers a_kernels (codes "e") ((codes "v", 1065353217 ∷ []) ∷ []) [] with_d)

d_run :
    upsert a_numbers a_kernels
      (codes "d")
      ((codes "v", 1065353216 ∷ []) ∷ [])
      ((codes "color", some (string_value (codes "red"))) ∷ [])
      new_table
    ≡ ok with_d
unfolding upsert is_empty Table.stage Assoc.lookup encode_fp16 fp16_from_float32
d_run = refl

e_run :
    upsert a_numbers a_kernels (codes "e") ((codes "v", 1065353217 ∷ []) ∷ []) [] with_d ≡ ok with_e
unfolding upsert is_empty Table.stage Assoc.lookup encode_fp16 fp16_from_float32 Table.add_cols
    Assoc.insert bytes_eq
e_run = refl

upsert-IsValid_example : IsValid a_numbers a_kernels with_d
upsert-IsValid_example =
    upsert-IsValid a_numbers a_kernels (codes "d") ((codes "v", 1065353216 ∷ []) ∷ [])
      ((codes "color", some (string_value (codes "red"))) ∷ []) new_table with_d
      (IsValid-new a_numbers a_kernels) d_run

with_d-IsValid : IsValid a_numbers a_kernels with_d
with_d-IsValid =
    upsert-IsValid a_numbers a_kernels (codes "d") ((codes "v", 1065353216 ∷ []) ∷ [])
      ((codes "color", some (string_value (codes "red"))) ∷ []) new_table with_d
      (IsValid-new a_numbers a_kernels) d_run

upsert-vector_at_example :
    HasVector a_numbers a_kernels (codes "e") (codes "v") (1065353217 ∷ []) with_e
upsert-vector_at_example =
    upsert-vector_at a_numbers a_kernels (codes "e") (codes "v") 1065353217 []
      ((codes "v", 1065353217 ∷ []) ∷ []) [] with_d with_e with_d-IsValid given_v e_run
  where
    given_v :
        Assoc.lookup {V = List ℕ} (codes "v") ((codes "v", 1065353217 ∷ []) ∷ [])
        ≡ some (1065353217 ∷ [])
    given_v = unfold Assoc.lookup in unfold bytes_eq in refl

with_e-IsValid : IsValid a_numbers a_kernels with_e
with_e-IsValid =
    upsert-IsValid a_numbers a_kernels (codes "e") ((codes "v", 1065353217 ∷ []) ∷ []) [] with_d
      with_e with_d-IsValid e_run

get-delete_example :
    get a_numbers a_kernels (codes "d") (Table.delete a_numbers a_kernels (codes "e") with_e).1 ≡ (
      if bytes_eq (codes "e") (codes "d") then none else get a_numbers a_kernels (codes "d") with_e)
get-delete_example = get-delete a_numbers a_kernels (codes "e") (codes "d") with_e with_e-IsValid
