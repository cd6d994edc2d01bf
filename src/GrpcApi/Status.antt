-- ===== src/GrpcApi/Status.antt =====
-- The answer of a service, and the statuses of errors.
use cloudy_neigh.Prelude.{
  Bytes, is_empty, if◌then◌else◌, Error, Result, ok, err, canceled, deadline_exceeded, not_found,
  branch_already_exists, dimension_mismatch, zero_vector,
}
use cloudy_neigh.Namespace.Names.{validate_name, default_namespace, default_branch}

-- google.golang.org/grpc/codes, as far as the services answer them
pub data Code : Type 0 where
  canceled_code invalid_argument_code deadline_exceeded_code not_found_code : Code
  already_exists_code unauthenticated_code internal_code : Code

-- A status with a code that is not OK, or a response.
pub data Answer {ℓ} (A : Type ℓ) : Type ℓ where
  refused : Code → Answer A
  replied : A → Answer A

module _ {ℓ κ} {A : Type ℓ} {B : Type κ} where
  infixl 5 ◌>>=◌
  -- `if err != nil { return nil, err }`, and then the rest
  abbrev pub ◌>>=◌ : Answer A → (A → Answer B) → Answer B
  refused c >>= rest = refused c
  replied a >>= rest = rest a

-- An error of the ingester: errors.Is of the two of a context, and anything else.
abbrev pub code_of : Error → Code
code_of canceled = canceled_code
code_of deadline_exceeded = deadline_exceeded_code
code_of _ = internal_code

-- The same for a fork, with what its branches cause.
abbrev pub fork_code_of : Error → Code
fork_code_of canceled = canceled_code
fork_code_of deadline_exceeded = deadline_exceeded_code
fork_code_of not_found = not_found_code
fork_code_of branch_already_exists = already_exists_code
fork_code_of _ = internal_code

-- The same for a search.
abbrev pub search_code_of : Error → Code
search_code_of dimension_mismatch = invalid_argument_code
search_code_of zero_vector = invalid_argument_code
search_code_of _ = internal_code

abbrev pub named : Bytes → Result (Unit {0}) → Answer Bytes
named name (ok _) = replied name
named name (err e) = refused invalid_argument_code

-- namespace.ValidateName, and the status of a name that is refused
unfoldable pub valid_name : Bytes → Answer Bytes
valid_name name = named name (validate_name name)

-- resolveNamespace
unfoldable pub resolve_namespace : Bytes → Answer Bytes
resolve_namespace raw = valid_name (if is_empty raw then default_namespace else raw)

-- resolveBranch
unfoldable pub resolve_branch : Bytes → Answer Bytes
resolve_branch raw = valid_name (if is_empty raw then default_branch else raw)
