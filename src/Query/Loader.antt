-- ===== src/Query/Loader.antt =====
-- query/loader.go: the table of a branch follows the segments of its manifest. One goroutine uses a
-- loader. A table is published by putting it into the loader; the copy that the source works on is a
-- value here. A context is done from the start or not at all.
pub mod Counts
pub mod Contents
use cloudy_neigh.Prelude.{
  ℕ, zero, suc, ◌+◌, Bool, true, false, ◌&&◌, not, Option, none, some, List, [], ◌∷◌, Bytes, length,
  drop, is_empty, bytes_eq, ltb, if◌then◌else◌, Error, Result, ok, err, is_not_found, undecodable,
  unknown_mutation, manifest_truncated, out_of_fuel,
}
use cloudy_neigh.RecordIo.Scanner.{Scanner, new_scanner, source_of}
use cloudy_neigh.ObjectStore.Defs.{Context, Object}
use cloudy_neigh.ObjectStore.World
use cloudy_neigh.ObjectStore.World.{World}
use cloudy_neigh.Namespace.Names.{Scope, manifest_key, segment_key}
use cloudy_neigh.Manifest
use cloudy_neigh.Manifest.{BranchManifest, SegmentRef}
use cloudy_neigh.Segment.{
  DocumentMutation, MutationOp, put, delete, other, Next, mutation, end_of_segment, failed, next,
}
use cloudy_neigh.Ingest.Messages.{Codecs, Record}
use cloudy_neigh.Query.Numbers.{Arithmetic, Kernels}
use cloudy_neigh.Query.Table
use cloudy_neigh.Query.Table.{Table, new_table, upsert_record}

pub record Loader : Type 0 where
  pub table : Table
  pub scope : Scope
  pub branch : Bytes
  pub applied : ℕ
  pub last_gen : Bytes

-- NewLoader, over a store and a table that are there
abbrev pub new_loader : Table → Scope → Bytes → Loader
new_loader table scope branch = record {
  table = table;
  scope = scope;
  branch = branch;
  applied = 0;
  last_gen = [];
}

-- What `Sync` returns and leaves: the number of segments that it has loaded, with or without an error.
pub record Synced : Type 0 where
  pub loaded : ℕ
  pub error : Option Error
  pub loader : Loader
  pub world : World

module _ (codecs : Codecs) (numbers : Arithmetic) (kernels : Kernels) (ctx : Context) where
  abbrev pub upserted : Option Record → Table → Result Table
  upserted none t = err undecodable
  upserted (some rec) t = upsert_record numbers kernels (some rec) t

  -- switch mut.Op
  abbrev pub apply : MutationOp → DocumentMutation → Table → Result Table
  apply put m t = upserted (codecs.document.unmarshal m.payload) t
  apply delete m t = ok (Table.delete numbers kernels m.doc_id t).1
  apply (other n) m t = err unknown_mutation

  abbrev pub applied_or :
      (Table → Option Error × Table) → Table → Result Table → Option Error × Table
  applied_or go t (err e) = (some e, t)
  applied_or go t (ok t') = go t'

  abbrev pub on_next :
      (Scanner → Table → Option Error × Table) → Next × Scanner → Table → Option Error × Table
  on_next go (mutation m, s) t = applied_or (go s) t (apply m.op m t)
  on_next go (end_of_segment, s) t = (none, t)
  on_next go (failed e, s) t = (some e, t)

  abbrev pub unless_done : Context → Option Error × Table → Table → Option Error × Table
  unless_done none r t = r
  unless_done (some e) r t = (some e, t)

  -- The loop over the mutations of a segment; what it has applied stays in the table.
  unfoldable pub load_loop : ℕ → Scanner → Table → Option Error × Table
  load_loop zero s t = (some out_of_fuel, t)
  load_loop (suc fuel) s t =
      unless_done ctx (on_next (load_loop fuel) (next codecs.document_mutation s) t) t

  -- The mutations of the bytes of a segment, each of which takes sixteen bytes at least.
  unfoldable pub load_segment : Bytes → Table → Option Error × Table
  load_segment content t = load_loop (suc (length content)) (new_scanner (source_of content)) t

  -- A table with mutations of a segment that failed is published only behind another segment.
  abbrev pub published : ℕ → Table → Loader → Loader
  published zero t l = l
  published (suc n) t l = record l { table = t }

  abbrev pub stopped : ℕ → Error → Table → Loader → World → Synced
  stopped n e t l w = record { loaded = n; error = some e; loader = published n t l; world = w }

  abbrev pub on_loaded :
      (ℕ → Table → Loader → World → Synced) → ℕ → Loader → World → Option Error × Table → Synced
  on_loaded go n l w (some e, t) = stopped n e t l w
  on_loaded go n l w (none, t) = go (suc n) t (record l { applied = l.applied + 1 }) w

  abbrev pub on_segment :
      (ℕ → Table → Loader → World → Synced)
      → ℕ
      → Table
      → Loader
      → Result (Bytes × Object) × World
      → Synced
  on_segment go n t l (err e, w) = stopped n e t l w
  on_segment go n t l (ok r, w) = on_loaded go n l w (load_segment r.0 t)

  -- The loop over the segments that are new; `n` of them are loaded.
  unfoldable pub load_segments : Bytes → List SegmentRef → ℕ → Table → Loader → World → Synced
  load_segments gen [] n t l w = record {
    loaded = n;
    error = none;
    loader = record l { table = t; last_gen = gen };
    world = w;
  }
  load_segments gen (seg ∷ segs) n t l w =
      on_segment (load_segments gen segs) n t l
        (World.get ctx (segment_key l.scope seg.segment_id) w)

  abbrev pub unchanged : Option Error → Loader → World → Synced
  unchanged e l w = record { loaded = 0; error = e; loader = l; world = w }

  abbrev pub sync_new : BranchManifest → Bytes → Loader → World → Synced
  sync_new m gen l w =
      if ltb (length m.segments) l.applied
      then unchanged (some manifest_truncated) l w
      else load_segments gen (drop l.applied m.segments) 0 l.table l w

  abbrev pub sync_read : Loader → Result (BranchManifest × Bytes) × World → Synced
  sync_read l (err e, w) = unchanged (if is_not_found e then none else some e) l w
  sync_read l (ok r, w) =
      if not (is_empty r.1) && bytes_eq r.1 l.last_gen
      then unchanged none l w
      else sync_new r.0 r.1 l w

  -- Sync
  unfoldable pub sync : Loader → World → Synced
  sync l w = sync_read l (Manifest.read codecs.manifest ctx (manifest_key l.scope l.branch) w)
