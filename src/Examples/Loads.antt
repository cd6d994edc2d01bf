-- ===== src/Examples/Loads.antt =====
-- query/loader.go at concrete inputs.
use cloudy_neigh.Prelude.{
  ℕ, ◌≡◌, refl, none, some, Option, List, [], ◌∷◌, Bytes, codes, ok, ◌+◌, ◌*◌, ltb, ◌==◌,
}
use cloudy_neigh.ObjectStore.Document
use cloudy_neigh.ObjectStore.Generation
use cloudy_neigh.ObjectStore.Mem
use cloudy_neigh.ObjectStore.World
use cloudy_neigh.Prelude
use cloudy_neigh.Prelude.Assoc
use cloudy_neigh.Query.Loader
use cloudy_neigh.Query.Numbers
use cloudy_neigh.Query.Table
use cloudy_neigh.RecordIo.Crc
use cloudy_neigh.RecordIo.Frame
use cloudy_neigh.RecordIo.Scanner
use cloudy_neigh.Segment
use cloudy_neigh.Vector.Half
use cloudy_neigh.ObjectStore.Defs.{if_absent}
use cloudy_neigh.ObjectStore.Mem.Cas.{run_writes, put_write}
use cloudy_neigh.ObjectStore.Mem.{new_mem_store}
use cloudy_neigh.ObjectStore.Generation.{local_generation}
use cloudy_neigh.ObjectStore.World.{World}
use cloudy_neigh.Namespace.Names.{manifest_key, segment_key}
use cloudy_neigh.Manifest
use cloudy_neigh.Manifest.{BranchManifest}
use cloudy_neigh.Ingest.Messages.{Codecs}
use cloudy_neigh.Query.Numbers.{Arithmetic, Kernels}
use cloudy_neigh.Query.Table.{Table, new_table}
use cloudy_neigh.Query.Loader.{Loader, new_loader, sync, load_segment}
use cloudy_neigh.Query.Loader.Counts.{Passed, sync-Passed}
use cloudy_neigh.Query.Loader.Contents.{apply_all, load_segment-encode_segment}
use cloudy_neigh.Examples.Ingests.{
  a_codecs, mutation_codec-IsFaithful, two, two-IsSmall, segment_bytes, two_run, a_scope,
}

-- Arithmetic of natural numbers, for these inputs, and kernels that know nothing of halves.
abbrev pub a_numbers : Arithmetic
a_numbers = record {
  zero_value = 0;
  one_value = 1;
  minus_one = 0;
  add = λ a b. a + b;
  subtract = λ a b. a;
  multiply = λ a b. a * b;
  inverse_root = λ a. a;
  is_zero = λ a. a == 0;
  less = ltb;
}

abbrev pub a_kernels : Kernels
a_kernels = record { dot = λ a b. 0; l2 = λ a b. 0; half = none }

load_segment-encode_segment_example :
    load_segment a_codecs a_numbers a_kernels none segment_bytes new_table
    ≡ apply_all a_codecs a_numbers a_kernels two new_table
load_segment-encode_segment_example =
    load_segment-encode_segment a_codecs a_numbers a_kernels two segment_bytes new_table
      mutation_codec-IsFaithful two-IsSmall two_run

-- A store with a manifest of one segment, which holds nothing.
abbrev one_segment : BranchManifest
one_segment = record {
  checkpoint_seq = 4;
  schema_version = 1;
  segments = record { segment_id = codes "ab"; doc_count = 0; docs_size = 0 } ∷ [];
}

abbrev load_codecs : Codecs
load_codecs = record a_codecs {
  manifest = record { marshal = λ m. none; unmarshal = λ b. some one_segment };
}

abbrev start : World
start = record {
  store =
      run_writes
        (put_write none (manifest_key a_scope (codes "a")) (4 ∷ []) if_absent
          ∷ put_write none (segment_key a_scope (codes "ab")) [] if_absent
          ∷ [])
        new_mem_store;
  schedule = [];
}

abbrev behind_read : World
behind_read = (Manifest.read load_codecs.manifest none (manifest_key a_scope (codes "a")) start).1

read_run :
    Manifest.read load_codecs.manifest none (manifest_key a_scope (codes "a")) start
    ≡ (ok (one_segment, local_generation 1 1), behind_read)
unfolding Manifest.read Document.read_document World.attempt World.get World.call Mem.get
    Assoc.lookup run_writes Mem.put Prelude.is_empty Mem.refuses Assoc.insert Prelude.bytes_eq
    manifest_key segment_key
read_run = refl

abbrev a_loader : Loader
a_loader = new_loader new_table a_scope (codes "a")

loads_one : (sync load_codecs a_numbers a_kernels none a_loader start).loader.applied ≡ 1
unfolding sync Manifest.read Document.read_document World.attempt World.get World.call Mem.get
    Assoc.lookup run_writes Mem.put Prelude.is_empty Mem.refuses Assoc.insert Prelude.bytes_eq
    manifest_key segment_key local_generation Generation.valid_local_generation Loader.load_loop
    load_segment Loader.load_segments Numbers.vector_inv_norm Table.add_attrs Table.add_cols
    Table.delete Table.stage Table.upsert Table.upsert_record Crc.compute_masked_crc Frame.le_value
    Scanner.check_header Scanner.end_status Scanner.read_full Scanner.read_header Scanner.scan
    Scanner.scan_footer Scanner.scan_payload Segment.next Half.encode_fp16 Half.fp16_from_float32
loads_one = refl

sync-Passed_example :
    Passed load_codecs a_numbers a_kernels none a_loader one_segment
      (local_generation 1 1)
      behind_read
      (sync load_codecs a_numbers a_kernels none a_loader start)
sync-Passed_example =
    sync-Passed load_codecs a_numbers a_kernels none a_loader one_segment (local_generation 1 1)
      start behind_read read_run
