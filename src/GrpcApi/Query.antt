-- ===== src/GrpcApi/Query.antt =====
-- grpcapi/query.go: the service that searches.
use cloudy_neigh.Prelude.{
  ℕ, Option, none, some, List, [], ◌∷◌, Bytes, ◌==◌, if◌then◌else◌, Error, Result, ok, err,
}
use cloudy_neigh.Prelude.Assoc
use cloudy_neigh.Prelude.Assoc.{Assoc}
use cloudy_neigh.Ingest.Messages.{Float, AttributeValue}
use cloudy_neigh.GrpcApi.Status.{
  Answer, refused, replied, ◌>>=◌, search_code_of, valid_name, resolve_branch,
  invalid_argument_code, not_found_code, internal_code,
}
use cloudy_neigh.GrpcApi.Tenant.{tenant_from}

-- cloudyneighpb.EqualityFilter
pub record EqualityFilter : Type 0 where
  pub field : Bytes
  pub value : Option AttributeValue

-- query.Request
pub record Request : Type 0 where
  pub namespace : Bytes
  pub branch : Bytes
  pub vector_column : Bytes
  pub vector : List Float
  pub top_k : ℕ
  pub filter : Option EqualityFilter

-- The interface QueryEngine, over its state and what it finds.
pub record QueryEngine (S Hits : Type 0) : Type 0 where
  pub query : Request → S → Result Hits × S

pub record QueryRequest : Type 0 where
  pub namespace : Bytes
  pub branch : Bytes
  pub vector_column : Bytes
  pub vector : List Float
  pub top_k : ℕ
  pub filter : Option EqualityFilter

-- The vector and the number of hits must not be nothing.
abbrev pub check_search : List Float → ℕ → Answer (Unit {0})
check_search [] top_k = refused invalid_argument_code
check_search (x ∷ v) top_k = if top_k == 0 then refused invalid_argument_code else replied tt

abbrev pub search_request : QueryRequest → Bytes → Request
search_request req branch = record {
  namespace = req.namespace;
  branch = branch;
  vector_column = req.vector_column;
  vector = req.vector;
  top_k = req.top_k;
  filter = req.filter;
}

module _ {S Hits : Type 0} where
  -- The response, once the trailer with the time is set, which may fail.
  abbrev pub found : Option Error → Result Hits × S → Answer Hits × S
  found trailer (err e, s) = (refused (search_code_of e), s)
  found none (ok hits, s) = (replied hits, s)
  found (some e) (ok hits, s) = (refused internal_code, s)

  abbrev pub searched : Option Error → QueryEngine S Hits → Answer Request → S → Answer Hits × S
  searched trailer eng (refused c) s = (refused c, s)
  searched trailer eng (replied request) s = found trailer (eng.query request s)

  abbrev pub with_engine :
      Option Error → Option (QueryEngine S Hits) → Answer Request → S → Answer Hits × S
  with_engine trailer none request s = (refused not_found_code, s)
  with_engine trailer (some eng) request s = searched trailer eng request s

  abbrev pub named_namespace : (S → Answer Hits × S) → Answer Bytes → S → Answer Hits × S
  named_namespace go (refused c) s = (refused c, s)
  named_namespace go (replied ns) s = go s

  -- QueryServer.Query; a request may be nil. `trailer` is what the library says to the trailer.
  unfoldable pub query :
      Option Error
      → Assoc (QueryEngine S Hits)
      → Option Bytes
      → Option QueryRequest
      → S
      → Answer Hits × S
  query trailer engines tenant none s = (refused invalid_argument_code, s)
  query trailer engines tenant (some req) s =
      named_namespace
        (with_engine trailer (Assoc.lookup (tenant_from tenant) engines) (
          resolve_branch req.branch >>= λ branch.
          (check_search req.vector req.top_k >>= λ _. replied (search_request req branch))))
        (valid_name req.namespace) s
