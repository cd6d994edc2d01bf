-- ===== src/Manifest.antt =====
-- manifest/manifest.go: the manifest of a branch, which lists its segments, in one object.
pub mod Swaps
use cloudy_neigh.Prelude.{ℕ, Option, none, some, List, Bytes, nil_manifest}
use cloudy_neigh.ObjectStore.Defs.{Context}
use cloudy_neigh.ObjectStore.World.{Io, raise}
use cloudy_neigh.ObjectStore.Document.{Codec, read_document, write_document}

-- storagepb.SegmentRef
pub record SegmentRef : Type 0 where
  pub segment_id : Bytes
  pub doc_count : ℕ
  pub docs_size : ℕ

-- storagepb.BranchManifest
pub record BranchManifest : Type 0 where
  pub checkpoint_seq : ℕ
  pub schema_version : ℕ
  pub segments : List SegmentRef

module _ (codec : Codec BranchManifest) (ctx : Context) (key : Bytes) where
  -- Read
  unfoldable pub read : Io (BranchManifest × Bytes)
  read = read_document codec key ctx

  -- Write; a manifest may be nil.
  unfoldable pub write : Option BranchManifest → Bytes → Io Bytes
  write none expected_gen = raise nil_manifest
  write (some m) expected_gen = write_document codec key ctx m expected_gen
