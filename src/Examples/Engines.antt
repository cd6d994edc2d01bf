-- ===== src/Examples/Engines.antt =====
-- query/engine.go at concrete inputs.
use cloudy_neigh.Prelude.{ℕ, ◌≡◌, refl, none, some, Option, List, [], ◌∷◌, Bytes, codes, length}
use cloudy_neigh.Manifest
use cloudy_neigh.Namespace.Branches
use cloudy_neigh.Namespace.Catalog
use cloudy_neigh.Namespace.Names
use cloudy_neigh.ObjectStore.Document
use cloudy_neigh.ObjectStore.Generation
use cloudy_neigh.Query.Engine
use cloudy_neigh.Query.Loader
use cloudy_neigh.Query.Numbers
use cloudy_neigh.Query.Table
use cloudy_neigh.RecordIo.Crc
use cloudy_neigh.RecordIo.Frame
use cloudy_neigh.RecordIo.Scanner
use cloudy_neigh.Segment
use cloudy_neigh.Vector.Half
use cloudy_neigh.ObjectStore.Mem
use cloudy_neigh.ObjectStore.World
use cloudy_neigh.Prelude
use cloudy_neigh.Prelude.Assoc
use cloudy_neigh.ObjectStore.World.{World}
use cloudy_neigh.Namespace.Catalog.{fresh_metadata}
use cloudy_neigh.Ingest.Messages.{Codecs}
use cloudy_neigh.ObjectStore.Defs.{if_absent}
use cloudy_neigh.ObjectStore.Mem.Cas.{run_writes, put_write}
use cloudy_neigh.ObjectStore.Mem.{new_mem_store}
use cloudy_neigh.Namespace.Names.{catalog_file}
use cloudy_neigh.Query.Table.{new_table}
use cloudy_neigh.Query.Loader.{new_loader}
use cloudy_neigh.Query.Engine.{BranchKey, Loaders, loader_of, sync_once}
use cloudy_neigh.Query.Engine.Keys.{Keyed, sync_once-Keyed}
use cloudy_neigh.Examples.Ingests.{a_codecs}
use cloudy_neigh.Examples.Loads.{a_numbers, a_kernels}

-- A tenant with two namespaces of one branch, in a store that holds no manifest.
abbrev engine_codecs : Codecs
engine_codecs = record a_codecs {
  tenant_catalog = record {
    marshal = λ c. none;
    unmarshal = λ b. some (record {
      tenant = [];
      namespaces = (codes "a", fresh_metadata 1) ∷ (codes "b", fresh_metadata 2) ∷ [];
    });
  };
}

abbrev start : World
start = record {
  store = run_writes (put_write none catalog_file [] if_absent ∷ []) new_mem_store;
  schedule = [];
}

-- The engine has a loader already.
abbrev key_a : BranchKey
key_a = record { namespace = codes "a"; branch = codes "main" }

abbrev loaders : Loaders
loaders = (key_a, loader_of key_a none) ∷ []

follows_both : length (sync_once engine_codecs a_numbers a_kernels none loaders start).1 ≡ 2
unfolding sync_once Catalog.active_namespaces World.attempt Catalog.read_tenant_catalog
    Document.read_document World.get World.call Mem.get Assoc.lookup run_writes Mem.put
    Prelude.is_empty Mem.refuses Assoc.insert Prelude.bytes_eq Engine.sync_namespaces
    Catalog.active_names Mem.sort_strings Manifest.read Branches.list_branches
    Branches.read_branch_catalog Names.branches_key Names.manifest_key Names.segment_key
    Document.read_or Generation.local_generation Generation.valid_local_generation Mem.insert_sorted
    Prelude.bytes_lt Engine.find Engine.keep Engine.key_eq Engine.sync_branch Engine.sync_branches
    Loader.load_loop Loader.load_segment Loader.load_segments Loader.sync Numbers.vector_inv_norm
    Table.add_attrs Table.add_cols Table.delete Table.stage Table.upsert Table.upsert_record
    Crc.compute_masked_crc Frame.le_value Scanner.check_header Scanner.end_status Scanner.read_full
    Scanner.read_header Scanner.scan Scanner.scan_footer Scanner.scan_payload Segment.next
    Half.encode_fp16 Half.fp16_from_float32
follows_both = refl

sync_once-Keyed_example : Keyed (sync_once engine_codecs a_numbers a_kernels none loaders start).1
sync_once-Keyed_example =
    sync_once-Keyed engine_codecs a_numbers a_kernels none loaders start
      (record { scope = refl; branch = refl }, tt)
