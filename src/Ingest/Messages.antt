-- ===== src/Ingest/Messages.antt =====
-- proto/: the messages of the log and of the documents, and the codecs of all of them, which are
-- parameters: generated code and a library.
use cloudy_neigh.Prelude.{ℕ, Option, List, Bytes}
use cloudy_neigh.Prelude.Assoc.{Assoc}
use cloudy_neigh.ObjectStore.Document.{Codec}
use cloudy_neigh.Segment.{DocumentMutation}
use cloudy_neigh.Manifest.{BranchManifest}
use cloudy_neigh.Namespace.Branches.{BranchCatalog}
use cloudy_neigh.Namespace.Catalog.{TenantCatalog}

-- A float32, by its bits.
abbrev pub Float : Type 0
Float = ℕ

-- cloudyneighpb.AttributeValue
pub data AttributeValue : Type 0 where
  string_value : Bytes → AttributeValue
  no_value : AttributeValue

-- cloudyneighpb.Record; a vector or an attribute of a map may be nil.
pub record Record : Type 0 where
  pub id : Bytes
  pub vectors : Assoc (Option (List Float))
  pub attributes : Assoc (Option AttributeValue)

-- storagepb.BranchLifecycleEvent_Type
pub data EventType : Type 0 where
  fork : EventType
  other : ℕ → EventType

-- storagepb.BranchLifecycleEvent
pub record BranchLifecycleEvent : Type 0 where
  pub event_type : EventType
  pub branch : Bytes
  pub parent_branch : Bytes

-- storagepb.WalRecord
pub data WalRecord : Type 0 where
  mutation : DocumentMutation → WalRecord
  branch_event : BranchLifecycleEvent → WalRecord
  no_record : WalRecord

pub record Codecs : Type 0 where
  pub document : Codec Record
  pub document_mutation : Codec DocumentMutation
  pub wal_record : Codec WalRecord
  pub manifest : Codec BranchManifest
  pub branches : Codec BranchCatalog
  pub tenant_catalog : Codec TenantCatalog
