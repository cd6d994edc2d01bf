-- ===== src/Prelude/Outcome.antt =====
-- The errors of the program, and the pair of a value and an error that a Go function returns.
-- Each constructor is an error value of the source, or a message that the source makes on the spot.
-- `fmt.Errorf` with `%w` adds words to an error and keeps what `errors.Is` sees, so that a wrapped
-- error is the error itself here.
use mathlib.Core.Path.{◌≡◌, refl}
use mathlib.Core.Logic.{◌⊎◌, inl, inr}
use mathlib.Core.Bool.{Bool, true, false}

pub data Error : Type 0 where
  -- package context
  canceled deadline_exceeded : Error
  -- a failure of the network, the disk or the reader below the program
  io_failure : Error
  -- package objectstore
  not_found precondition_failed malformed_generation invalid_range offset_exceeds_size : Error
  -- package recordio
  torn_write header_corrupted data_corrupted record_too_large closed : Error
  -- package logstream
  end_of_stream nil_store invalid_prefix empty_batch zero_sequence malformed_key : Error
  -- packages manifest and segment
  branch_already_exists nil_manifest nil_mutation : Error
  -- bytes that a codec does not read, and a value that it does not write
  undecodable unencodable : Error
  -- package namespace
  invalid_name namespace_already_exists namespace_not_found : Error
  namespace_deleted generation_mismatch empty_stores : Error
  -- package query and package vector
  dimension_mismatch manifest_truncated empty_doc_id nil_record nil_vector nil_table : Error
  zero_vector unknown_metric unknown_mutation float16_overflow non_finite : Error
  -- package ingest
  mixed_branches : Error
  -- no error value of the program: a run-time panic, and a loop of the model that ran out of fuel
  panic out_of_fuel : Error

-- `err` stands before `ok` in the tests of the source: `if err != nil`.
pub data Result {ℓ} (A : Type ℓ) : Type ℓ where
  err : Error → Result A
  ok : A → Result A

-- `if !test { return err }`
abbrev pub guard : Bool → Error → Result (Unit {0})
guard false problem = err problem
guard true problem = ok tt

module _ {ℓ κ} {A : Type ℓ} {B : Type κ} where
  infixl 5 ◌>>=◌
  -- `if err != nil { return err }`, and then the rest
  abbrev pub ◌>>=◌ : Result A → (A → Result B) → Result B
  err problem >>= rest = err problem
  ok value >>= rest = rest value

module _ {κ} {B : Type κ} where
  infixl 5 ◌>>◌
  abbrev pub ◌>>◌ : Result (Unit {0}) → Result B → Result B
  test >> rest = test >>= λ _. rest

-- errors.Is(err, objectstore.ErrNotFound)
abbrev pub is_not_found : Error → Bool
is_not_found not_found = true
is_not_found _ = false

-- errors.Is(err, objectstore.ErrPreconditionFailed)
abbrev pub is_precondition_failed : Error → Bool
is_precondition_failed precondition_failed = true
is_precondition_failed _ = false

-- errors.Is(err, context.Canceled) || errors.Is(err, context.DeadlineExceeded)
abbrev pub is_context_error : Error → Bool
is_context_error canceled = true
is_context_error deadline_exceeded = true
is_context_error _ = false

pub Result-cases {ℓ} :
    {A : Type ℓ} (r : Result A) → ((a : A) × (r ≡ ok a)) ⊎ ((e : Error) × (r ≡ err e))
Result-cases (ok a) = inl (a, refl)
Result-cases (err e) = inr (e, refl)
