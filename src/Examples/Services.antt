-- ===== src/Examples/Services.antt =====
-- grpcapi/ at concrete inputs, over the ingester of the package ingest.
use cloudy_neigh.Prelude.{none, some, [], ◌∷◌, codes}
use cloudy_neigh.Prelude.Assoc.{Assoc}
use cloudy_neigh.ObjectStore.Mem.{new_mem_store}
use cloudy_neigh.ObjectStore.World.{World}
use cloudy_neigh.Ingest.Messages.{Codecs}
use cloudy_neigh.Ingest.Client.{Ingester, new_ingester}
use cloudy_neigh.GrpcApi.Ingest
use cloudy_neigh.GrpcApi.Ingest.{IngesterOps, UpsertRequest, ForkRequest, client_ops}
use cloudy_neigh.GrpcApi.Ingest.Calls.{Handled, ForkHandled, upsert-Handled, fork-ForkHandled}

-- Codecs that write every message as no bytes, and read none.
abbrev empty_codecs : Codecs
empty_codecs = record {
  document = record { marshal = λ r. some []; unmarshal = λ b. none };
  document_mutation = record { marshal = λ m. some []; unmarshal = λ b. none };
  wal_record = record { marshal = λ r. some []; unmarshal = λ b. none };
  manifest = record { marshal = λ m. some []; unmarshal = λ b. none };
  branches = record { marshal = λ m. some []; unmarshal = λ b. none };
  tenant_catalog = record { marshal = λ m. some []; unmarshal = λ b. none };
}

-- One tenant.
abbrev ingesters : Assoc (IngesterOps (Ingester × World))
ingesters = (codes "acme", client_ops empty_codecs none none 7) ∷ []

abbrev fresh : Ingester × World
fresh = (new_ingester, record { store = new_mem_store; schedule = [] })

abbrev request : UpsertRequest
request = record {
  namespace = codes "shop";
  branch = [];
  records = some (record { id = codes "d"; vectors = []; attributes = [] }) ∷ [];
}

upsert-Handled_example :
    Handled ingesters
      (some (codes "acme"))
      request
      fresh
      (Ingest.upsert ingesters (some (codes "acme")) (some request) fresh)
upsert-Handled_example = upsert-Handled ingesters (some (codes "acme")) request fresh

abbrev fork_request : ForkRequest
fork_request = record { namespace = codes "shop"; source_branch = []; target_branch = codes "dev" }

fork-ForkHandled_example :
    ForkHandled ingesters
      (some (codes "acme"))
      fresh
      (Ingest.fork ingesters (some (codes "acme")) (some fork_request) fresh)
fork-ForkHandled_example = fork-ForkHandled ingesters (some (codes "acme")) fork_request fresh
