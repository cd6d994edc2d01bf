-- ===== src/GrpcApi/Ingest.antt =====
-- grpcapi/ingest.go: the service that writes.
pub mod Calls
use cloudy_neigh.Prelude.{
  ℕ, ◌%◌, ◌^◌, Bool, true, false, Option, none, some, List, [], ◌∷◌, Bytes, bytes_eq, is_empty,
  length, if◌then◌else◌, Error, Result, ok, err,
}
use cloudy_neigh.Prelude.Assoc
use cloudy_neigh.Prelude.Assoc.{Assoc}
use cloudy_neigh.ObjectStore.Defs.{Context}
use cloudy_neigh.ObjectStore.World.{World}
use cloudy_neigh.Ingest.Messages.{Codecs, Record}
use cloudy_neigh.Ingest.Client
use cloudy_neigh.Ingest.Client.{Ingester}
use cloudy_neigh.GrpcApi.Status.{
  Answer, refused, replied, ◌>>=◌, Code, code_of, fork_code_of, valid_name, resolve_namespace,
  resolve_branch, invalid_argument_code, not_found_code,
}
use cloudy_neigh.GrpcApi.Tenant.{tenant_from}

-- The interface Ingester, over the state that its operations change.
pub record IngesterOps (S : Type 0) : Type 0 where
  pub upsert : Bytes → Bytes → List Record → S → Result (Unit {0}) × S
  pub delete : Bytes → Bytes → List Bytes → S → Result (Unit {0}) × S
  pub fork : Bytes → Bytes → Bytes → S → Result (Unit {0}) × S

pub record UpsertRequest : Type 0 where
  pub namespace : Bytes
  pub branch : Bytes
  pub records : List (Option Record)

pub record DeleteRequest : Type 0 where
  pub namespace : Bytes
  pub branch : Bytes
  pub ids : List Bytes

pub record ForkRequest : Type 0 where
  pub namespace : Bytes
  pub source_branch : Bytes
  pub target_branch : Bytes

-- What is left to do behind the checks: a call on names that were resolved.
pub record Call (A : Type 0) : Type 0 where
  pub namespace : Bytes
  pub branch : Bytes
  pub argument : A

-- The records, none of them nil and none without an identifier.
unfoldable pub checked_records : List (Option Record) → Answer (List Record)
checked_records [] = replied []
checked_records (none ∷ recs) = refused invalid_argument_code
checked_records (some rec ∷ recs) =
    let rest = checked_records recs in
    if is_empty rec.id then refused invalid_argument_code else (rest >>= λ rs. replied (rec ∷ rs))

unfoldable pub checked_ids : List Bytes → Answer (List Bytes)
checked_ids [] = replied []
checked_ids (id ∷ ids) =
    let rest = checked_ids ids in
    if is_empty id then refused invalid_argument_code else (rest >>= λ is. replied (id ∷ is))

abbrev pub resolved : {A : Type 0} → Bytes → Bytes → Answer A → Answer (Call A)
resolved raw_namespace raw_branch checked = resolve_namespace raw_namespace >>= λ ns.
    (resolve_branch raw_branch >>= λ b.
    (checked >>= λ a. replied (record { namespace = ns; branch = b; argument = a })))

abbrev pub finish : {A S : Type 0} → A → (Error → Code) → Result (Unit {0}) × S → Answer A × S
finish a to_code (ok _, s) = (replied a, s)
finish a to_code (err e, s) = (refused (to_code e), s)

abbrev pub unless_same : Bool → Call Bytes → Answer (Call Bytes)
unless_same true call = refused invalid_argument_code
unless_same false call = replied call

-- The source as the branch of the call, and the target as its argument.
abbrev pub fork_call : ForkRequest → Answer (Call Bytes)
fork_call req = resolve_namespace req.namespace >>= λ ns.
    ((if is_empty req.target_branch
        then refused invalid_argument_code
        else valid_name req.target_branch)
      >>= λ target.
          (resolve_branch req.source_branch >>= λ source.
          unless_same (bytes_eq source target)
            (record { namespace = ns; branch = source; argument = target })))

module _ {S : Type 0} where
  -- ing.Upsert and ing.Delete, unless there is nothing to do; the count of a response is a uint32.
  abbrev pub upsert_all : IngesterOps S → Bytes → Bytes → List Record → S → Answer ℕ × S
  upsert_all ing ns b [] s = (replied 0, s)
  upsert_all ing ns b (rec ∷ recs) s =
      finish (length (rec ∷ recs) % 2 ^ 32) code_of (ing.upsert ns b (rec ∷ recs) s)

  abbrev pub delete_all : IngesterOps S → Bytes → Bytes → List Bytes → S → Answer ℕ × S
  delete_all ing ns b [] s = (replied 0, s)
  delete_all ing ns b (id ∷ ids) s =
      finish (length (id ∷ ids) % 2 ^ 32) code_of (ing.delete ns b (id ∷ ids) s)

  abbrev pub run_call :
      {A B : Type 0} → (Bytes → Bytes → A → S → Answer B × S) → Answer (Call A) → S → Answer B × S
  run_call op (refused c) s = (refused c, s)
  run_call op (replied call) s = op call.namespace call.branch call.argument s

  -- The ingester of the tenant.
  abbrev pub with_ingester :
      {B : Type 0} → (IngesterOps S → S → Answer B × S) → Option (IngesterOps S) → S → Answer B × S
  with_ingester go none s = (refused not_found_code, s)
  with_ingester go (some ing) s = go ing s

  -- IngestServer.Upsert; a request may be nil.
  unfoldable pub upsert :
      Assoc (IngesterOps S) → Option Bytes → Option UpsertRequest → S → Answer ℕ × S
  upsert ingesters tenant none s = (refused invalid_argument_code, s)
  upsert ingesters tenant (some req) s =
      with_ingester
        (λ ing.
          run_call (upsert_all ing)
            (resolved req.namespace req.branch (checked_records req.records)))
        (Assoc.lookup (tenant_from tenant) ingesters) s

  -- IngestServer.Delete
  unfoldable pub delete :
      Assoc (IngesterOps S) → Option Bytes → Option DeleteRequest → S → Answer ℕ × S
  delete ingesters tenant none s = (refused invalid_argument_code, s)
  delete ingesters tenant (some req) s =
      with_ingester
        (λ ing. run_call (delete_all ing) (resolved req.namespace req.branch (checked_ids req.ids)))
        (Assoc.lookup (tenant_from tenant) ingesters) s

  abbrev pub fork_one : IngesterOps S → Bytes → Bytes → Bytes → S → Answer (Unit {0}) × S
  fork_one ing ns source target s = finish tt fork_code_of (ing.fork ns source target s)

  -- IngestServer.Fork
  unfoldable pub fork :
      Assoc (IngesterOps S) → Option Bytes → Option ForkRequest → S → Answer (Unit {0}) × S
  fork ingesters tenant none s = (refused invalid_argument_code, s)
  fork ingesters tenant (some req) s =
      with_ingester (λ ing. run_call (fork_one ing) (fork_call req))
        (Assoc.lookup (tenant_from tenant) ingesters) s

abbrev paired : Result (Unit {0}) × Ingester × World → Result (Unit {0}) × (Ingester × World)
paired (r, ing, w) = (r, (ing, w))

-- The ingester of the package ingest behind the interface, with the context of the clean-up of forks.
abbrev pub client_ops : Codecs → Context → Context → ℕ → IngesterOps (Ingester × World)
client_ops codecs ctx del_ctx now = record {
  upsert = λ ns branch recs s. paired (Client.upsert codecs ctx now ns branch recs s.0 s.1);
  delete = λ ns branch ids s. paired (Client.delete_ids codecs ctx now ns branch ids s.0 s.1);
  fork = λ ns source target s.
      paired (Client.fork_branch codecs ctx now del_ctx ns source target s.0 s.1);
}
