-- ===== src/Examples/Ingests.antt =====
-- segment/ and ingest/ at concrete inputs, with codecs that write a mutation of a branch of one letter
-- and an empty payload as the letter and the document's id.
use cloudy_neigh.Prelude.{
  ℕ, ◌≡◌, ◌≤◌, ◌⊎◌, ap, take, Result, false, refl, none, some, Option, List, [], ◌∷◌, Bytes, codes,
  length, arith, ok, err, is_empty, bytes_eq, All,
}
use cloudy_neigh.Ingest.Client
use cloudy_neigh.Ingest.Flush
use cloudy_neigh.Ingest.Stream
use cloudy_neigh.LogStream.Jump
use cloudy_neigh.LogStream.Keys
use cloudy_neigh.LogStream.Log
use cloudy_neigh.Manifest
use cloudy_neigh.Namespace.Branches
use cloudy_neigh.Namespace.Catalog
use cloudy_neigh.Namespace.Names
use cloudy_neigh.ObjectStore.Document
use cloudy_neigh.ObjectStore.Generation
use cloudy_neigh.ObjectStore.Mem
use cloudy_neigh.ObjectStore.World
use cloudy_neigh.Prelude
use cloudy_neigh.RecordIo.Buffered
use cloudy_neigh.RecordIo.Crc
use cloudy_neigh.RecordIo.Frame
use cloudy_neigh.RecordIo.Writer
use cloudy_neigh.Segment
use cloudy_neigh.Prelude.Assoc
use cloudy_neigh.ObjectStore.Document.{Codec}
use cloudy_neigh.Segment.{
  DocumentMutation, MutationOp, put, delete, other, encode_segment, end_of_segment,
}
use cloudy_neigh.Segment.RoundTrip.{IsFaithful, read_all, read_all-encode_segment, IsSmall}
use cloudy_neigh.ObjectStore.Mem.{MemStore, new_mem_store}
use cloudy_neigh.ObjectStore.Defs.{if_absent}
use cloudy_neigh.ObjectStore.Mem.Cas.{run_writes, put_write, run_writes-IsValid}
use cloudy_neigh.ObjectStore.Mem.Validity.{IsValid-new}
use cloudy_neigh.ObjectStore.World.{World}
use cloudy_neigh.ObjectStore.World.Room.{Room, RoomToWrite}
use cloudy_neigh.Namespace.Names.{Scope, manifest_key, branches_key}
use cloudy_neigh.Manifest.{BranchManifest}
use cloudy_neigh.Ingest.Messages.{Codecs, Record, WalRecord, mutation, branch_event, no_record}
use cloudy_neigh.Ingest.Flush.{
  Checkpoints, Batch, passed, add_records, flush_branch, process_records,
}
use cloudy_neigh.Ingest.Flush.Commits.{Flushed, flush_branch-Flushed}
use cloudy_neigh.Ingest.Flush.Batches.{
  Gathered, checkpoint_of, start_of, start_of-Gathered, add_records-Gathered,
  process_records-checkpoint,
}
use cloudy_neigh.Ingest.Gathers.{Puts, add_records-put_mutations}
use cloudy_neigh.Ingest.Client.{Ingester, new_ingester, upsert, append_records, fork_branch}
use cloudy_neigh.Ingest.Client.Upserts.{Holds, upsert-read}
use cloudy_neigh.Ingest.Client.Forks.{Forked, fork_branch-Forked}
use cloudy_neigh.Ingest.Stream.{init_checkpoints}
use cloudy_neigh.Ingest.Stream.Start.{NoneBelow, init_checkpoints-NoneBelow}

-- A mutation that puts an empty document.
abbrev pub simple : ℕ → Bytes → DocumentMutation
simple letter id = record { branch = letter ∷ []; doc_id = id; op = put; payload = [] }

abbrev pub pack : Bytes → Bytes → MutationOp → Bytes → Option Bytes
pack (letter ∷ []) id put [] = some (letter ∷ id)
pack _ _ _ _ = none

abbrev pub unpack : Bytes → Option DocumentMutation
unpack [] = none
unpack (letter ∷ id) = some (simple letter id)

abbrev pub mutation_codec : Codec DocumentMutation
mutation_codec = record { marshal = λ m. pack m.branch m.doc_id m.op m.payload; unmarshal = unpack }

unpack-pack :
    (branch id : Bytes) (op : MutationOp) (payload b : Bytes)
    → pack branch id op payload ≡ some b
    → unpack b ≡ some (record { branch = branch; doc_id = id; op = op; payload = payload })
unpack-pack [] id op payload b h = cc
unpack-pack (x ∷ y ∷ branch) id op payload b h = cc
unpack-pack (x ∷ []) id delete payload b h = cc
unpack-pack (x ∷ []) id (other n) payload b h = cc
unpack-pack (x ∷ []) id put (p ∷ payload) b h = cc
unpack-pack (x ∷ []) id put [] b h = let same : x ∷ id ≡ b = cc in rw (← same) refl

pub mutation_codec-IsFaithful : IsFaithful mutation_codec
mutation_codec-IsFaithful m b h = unpack-pack m.branch m.doc_id m.op m.payload b h

abbrev pub two : List DocumentMutation
two = simple 97 (1 ∷ []) ∷ simple 98 [] ∷ []

abbrev pub segment_bytes : Bytes
segment_bytes = elim (encode_segment mutation_codec two) [ ok b ↦ b | err e ↦ [] ]

pub two_run : encode_segment mutation_codec two ≡ ok segment_bytes
unfolding encode_segment Segment.write_all Segment.write Writer.write_record Writer.write_part
    Buffered.buf_write Frame.header Frame.le_bytes Writer.write_payload Frame.footer Writer.close
    Buffered.flush is_empty
two_run = refl

simple-IsSmall :
    (letter : ℕ) (id : Bytes) → length id ≤ 8 → IsSmall mutation_codec (simple letter id)
simple-IsSmall letter id h b e = let same : letter ∷ id ≡ b = cc in rw (← same) (omega arith)

pub two-IsSmall : All (IsSmall mutation_codec) two
two-IsSmall = (simple-IsSmall 97 (1 ∷ []) (omega arith), (simple-IsSmall 98 [] (omega arith), tt))

read_all-encode_segment_example : read_all mutation_codec segment_bytes ≡ (two, end_of_segment)
read_all-encode_segment_example =
    read_all-encode_segment mutation_codec two segment_bytes mutation_codec-IsFaithful two-IsSmall
      two_run

-- The codec of the records of the log; every manifest is read as one with checkpoint 4, every list of
-- branches as none, and every document is empty.
abbrev pub marshal_record : WalRecord → Option Bytes
marshal_record (mutation m) = pack m.branch m.doc_id m.op m.payload
marshal_record _ = none

abbrev pub as_record : Option DocumentMutation → Option WalRecord
as_record none = none
as_record (some m) = some (mutation m)

abbrev pub a_manifest : BranchManifest
a_manifest = record { checkpoint_seq = 4; schema_version = 1; segments = [] }

abbrev pub nobody : Record
nobody = record { id = []; vectors = []; attributes = [] }

abbrev pub a_codecs : Codecs
a_codecs = record {
  document = record { marshal = λ r. some []; unmarshal = λ b. some nobody };
  document_mutation = mutation_codec;
  wal_record = record { marshal = marshal_record; unmarshal = λ b. as_record (unpack b) };
  manifest = record {
    marshal = λ m. some (m.checkpoint_seq ∷ []);
    unmarshal = λ b. some a_manifest;
  };
  branches = record { marshal = λ b. some (length b ∷ []); unmarshal = λ b. some [] };
  tenant_catalog = record {
    marshal = λ c. some (length c.namespaces ∷ []);
    unmarshal = λ b. some (record { tenant = []; namespaces = [] });
  };
}

wal_record-IsFaithful : IsFaithful a_codecs.wal_record
wal_record-IsFaithful (mutation m) b h =
    ap as_record (unpack-pack m.branch m.doc_id m.op m.payload b h)
wal_record-IsFaithful (branch_event e) b h = cc
wal_record-IsFaithful no_record b h = cc

-- A hash, for these inputs.
abbrev pub first_bytes : Bytes → Bytes
first_bytes b = take 2 b

abbrev pub a_scope : Scope
a_scope = record { name = codes "n" }

abbrev start : World
start = record { store = new_mem_store; schedule = [] }

start-Room : RoomToWrite start
start-Room = (IsValid-new, omega arith)

-- The flush of a mutation of the branch "a" from batch 5.
abbrev flushed : Result (Unit {0}) × Checkpoints × World
flushed = flush_branch a_codecs first_bytes none a_scope (97 ∷ []) (simple 97 [] ∷ []) 5 [] start

flush_run : flushed ≡ (ok tt, (97 ∷ [], 5) ∷ [], flushed.2)
unfolding flush_branch Flush.flush_mutations World.attempt encode_segment Segment.write_all
    Segment.write Writer.write_record Writer.write_part Buffered.buf_write Frame.header
    Frame.le_bytes Writer.write_payload Frame.footer Writer.close Buffered.flush is_empty
    Flush.upload World.put World.call Mem.put Mem.refuses Assoc.lookup run_writes Flush.register
    Flush.commit Document.update_loop Document.read_or Document.read_document World.get Mem.get
    Assoc.insert bytes_eq Names.segment_key Flush.hex_encode Branches.add_branch
    Branches.read_branch_catalog Branches.update_branches branches_key manifest_key
    Document.carry_out Document.write_document Generation.local_generation
    Generation.valid_local_generation Buffered.sink_write Buffered.write_empty
    Crc.compute_masked_crc Writer.flush_writer Writer.sync
flush_run = refl

flush_branch-Flushed_example :
    Flushed a_codecs first_bytes none a_scope
      (97 ∷ [])
      (simple 97 [] ∷ [])
      5
      []
      ((97 ∷ [], 5) ∷ [])
      start
      flushed.2
flush_branch-Flushed_example =
    flush_branch-Flushed a_codecs first_bytes none a_scope (97 ∷ []) (simple 97 []) [] 5 []
      ((97 ∷ [], 5) ∷ []) start flushed.2 start-Room flush_run

-- A batch of two mutations of "a", and one with a mutation of "b" at its end.
abbrev records_a : List Bytes
records_a = (97 ∷ 1 ∷ []) ∷ (97 ∷ 2 ∷ []) ∷ []

abbrev mixed : List Bytes
mixed = (97 ∷ 1 ∷ []) ∷ (98 ∷ 2 ∷ []) ∷ []

add_records-Gathered_example :
    Gathered 5 (add_records a_codecs first_bytes none a_scope 5 mixed (start_of [])).1
    × (checkpoint_of (97 ∷ []) []
        ≤ checkpoint_of
            (97 ∷ [])
            (add_records a_codecs first_bytes none a_scope 5 mixed (start_of [])).1.checkpoints)
add_records-Gathered_example =
    add_records-Gathered a_codecs first_bytes none a_scope 5 mixed (start_of []) (97 ∷ [])
      (start_of-Gathered 5 [])

abbrev processed : Result (Unit {0}) × Checkpoints × World
processed = process_records a_codecs first_bytes none a_scope 5 records_a [] start

process_run : processed ≡ (ok tt, (97 ∷ [], 5) ∷ [], processed.2)
unfolding process_records add_records Flush.add_record is_empty Assoc.lookup bytes_eq flush_branch
    Flush.flush_mutations World.attempt encode_segment Segment.write_all Segment.write
    Writer.write_record Writer.write_part Buffered.buf_write Frame.header Frame.le_bytes
    Writer.write_payload Frame.footer Writer.close Buffered.flush Flush.upload World.put World.call
    Mem.put Mem.refuses run_writes Flush.register Flush.commit Document.update_loop Document.read_or
    Document.read_document World.get Flush.hex_encode Branches.add_branch
    Branches.read_branch_catalog Branches.update_branches branches_key manifest_key
    Names.segment_key Document.carry_out Document.write_document Generation.local_generation
    Generation.valid_local_generation Mem.get Assoc.insert Buffered.sink_write Buffered.write_empty
    Crc.compute_masked_crc Writer.flush_writer Writer.sync
process_run = refl

process_records-checkpoint_example :
    (checkpoint_of (97 ∷ []) [] ≤ checkpoint_of (97 ∷ []) ((97 ∷ [], 5) ∷ []))
    × (((add_records a_codecs first_bytes none a_scope 5 records_a (start_of [])).1.mutations ≡ [])
        ⊎ (5
            ≤ checkpoint_of
                (add_records a_codecs first_bytes none a_scope 5 records_a (start_of [])).1.branch
                ((97 ∷ [], 5) ∷ [])))
process_records-checkpoint_example =
    process_records-checkpoint a_codecs first_bytes none a_scope 5 records_a [] ((97 ∷ [], 5) ∷ [])
      start processed.2 (97 ∷ []) start-Room process_run

-- Two documents with the identifiers of `records_a`.
abbrev document_of : Bytes → Record
document_of id = record { id = id; vectors = []; attributes = [] }

add_records-put_mutations_example :
    (ms : List DocumentMutation) × Puts a_codecs first_bytes none 7 a_scope
      (97 ∷ [])
      (document_of (1 ∷ []) ∷ document_of (2 ∷ []) ∷ [])
      ms
    × (add_records a_codecs first_bytes none a_scope 5 records_a (start_of [])
        ≡ (none, record { branch = 97 ∷ []; mutations = ms; checkpoints = [] }))
add_records-put_mutations_example =
    add_records-put_mutations a_codecs first_bytes none 7 a_scope 5 (97 ∷ []) (document_of (1 ∷ []))
      (document_of (2 ∷ []) ∷ []) records_a [] wal_record-IsFaithful named fresh refl
  where
    named : is_empty (97 ∷ []) ≡ false
    named = unfold is_empty in refl

    fresh : passed 5 (Assoc.lookup {V = ℕ} (97 ∷ []) []) ≡ false
    fresh = unfold Assoc.lookup in refl

abbrev upserted : Result (Unit {0}) × Ingester × World
upserted =
    upsert a_codecs none 7 (codes "n") (97 ∷ []) (document_of (1 ∷ []) ∷ document_of (2 ∷ []) ∷ [])
      new_ingester start

upsert_run : upserted ≡ (ok tt, upserted.1, upserted.2)
unfolding upsert Client.append_records Client.get_or_create_log Assoc.lookup Log.new
    Keys.valid_prefix is_empty Names.wal_prefix Log.append Log.encode_batch Writer.write_records
    Writer.write_record Writer.write_part Buffered.buf_write Frame.header Frame.le_bytes
    Writer.write_payload Frame.footer Writer.close Buffered.flush Log.locate World.attempt Log.tail
    Log.head World.list World.call Assoc.member Catalog.create_namespace Names.validate_name
    Document.update_loop Catalog.read_catalog_or_empty Document.read_or World.put Mem.put
    Mem.refuses Mem.list Assoc.insert Prelude.has_prefix Log.append_loop bytes_eq Keys.segment_key
    Document.read_document World.get Mem.get run_writes Document.carry_out Document.write_document
upsert_run = refl

upsert-read_example :
    (n : ℕ) × (append_records a_codecs none 7 a_scope (ok records_a) new_ingester start
      ≡ (ok n, upserted.1, upserted.2))
    × ((n ≡ 0) ⊎ Holds a_codecs none 7 a_scope records_a n upserted.2)
upsert-read_example =
    upsert-read a_codecs none 7 (codes "n") (97 ∷ []) (document_of (1 ∷ []))
      (document_of (2 ∷ []) ∷ []) records_a new_ingester upserted.1 start upserted.2 tt refl
      (omega arith, (omega arith, tt)) upsert_run

-- A store that holds the manifest of "a".
abbrev pub stored : MemStore
stored =
    run_writes (put_write none (manifest_key a_scope (97 ∷ [])) (4 ∷ []) if_absent ∷ [])
      new_mem_store

abbrev later : World
later = record { store = stored; schedule = [] }

-- A fork of "a", which has been flushed, to "b", with codecs that write the records of forks.
abbrev marshal_event : WalRecord → Option Bytes
marshal_event (branch_event e) = some e.branch
marshal_event _ = none

abbrev event_codecs : Codecs
event_codecs = record a_codecs {
  wal_record = record { marshal = marshal_event; unmarshal = λ b. none };
}

abbrev forked_to_b : Result (Unit {0}) × Ingester × World
forked_to_b =
    fork_branch event_codecs none 7 none (codes "n") (97 ∷ []) (98 ∷ []) new_ingester later

fork_run : forked_to_b ≡ (ok tt, forked_to_b.1, forked_to_b.2)
unfolding fork_branch Client.copy_manifest World.attempt Manifest.read Document.read_document
    World.get World.call Mem.get Assoc.lookup run_writes Mem.put is_empty Mem.refuses Assoc.insert
    bytes_eq manifest_key Manifest.write Document.write_document World.put Branches.add_branch
    Branches.update_branches Document.update_loop Branches.read_branch_catalog Document.read_or
    branches_key Document.carry_out Client.append_records Client.get_or_create_log Log.new
    Keys.valid_prefix Names.wal_prefix Log.append Log.encode_batch Client.rollback Jump.grow
    Jump.halve Jump.jump Keys.after_slash Keys.base Keys.decimal Keys.parse_decimal Keys.parse_seq
    Keys.segment_key Keys.strip_slashes Log.append_loop Log.head Log.locate Log.tail
    Branches.remove_branch Catalog.create_namespace Catalog.read_catalog_or_empty
    Names.validate_name Generation.local_generation Generation.valid_local_generation Mem.delete
    Mem.exists Mem.insert_sorted Mem.list Mem.list_keys Mem.objects_of Mem.select Mem.sort_strings
    World.delete World.exists World.list Assoc.delete Assoc.member Prelude.bytes_lt
    Prelude.has_prefix Buffered.buf_write Buffered.flush Buffered.sink_write Buffered.write_empty
    Crc.compute_masked_crc Frame.footer Frame.header Frame.le_bytes Writer.close Writer.flush_writer
    Writer.sync Writer.write_part Writer.write_payload Writer.write_record Writer.write_records
fork_run = refl

later-Room : Room later
unfolding run_writes Mem.put is_empty Mem.refuses Assoc.lookup
later-Room = (
  run_writes-IsValid (put_write none (manifest_key a_scope (97 ∷ [])) (4 ∷ []) if_absent ∷ [])
      new_mem_store (omega arith) IsValid-new,
  omega arith,
)

fork_branch-Forked_example :
    Forked event_codecs none 7 a_scope
      (97 ∷ [])
      (98 ∷ [])
      new_ingester
      forked_to_b.1
      later
      forked_to_b.2
fork_branch-Forked_example =
    fork_branch-Forked event_codecs none 7 none (codes "n") (97 ∷ []) (98 ∷ []) new_ingester
      forked_to_b.1 later forked_to_b.2 later-Room fork_run

-- Codecs that read every list of branches as that of "a" alone.
abbrev init_codecs : Codecs
init_codecs = record a_codecs {
  branches = record { marshal = λ b. some []; unmarshal = λ b. some ((97 ∷ [], tt) ∷ []) };
}

abbrev with_branches : World
with_branches = record {
  store = run_writes (put_write none (branches_key a_scope) [] if_absent ∷ []) stored;
  schedule = [];
}

-- A loop that starts with a list of branches and the manifest of one of them.
abbrev found : Result ℕ × Checkpoints × World
found = init_checkpoints init_codecs first_bytes none a_scope [] with_branches

init_run : found ≡ (ok 4, (97 ∷ [], 4) ∷ [], found.2)
unfolding init_checkpoints Branches.list_branches World.attempt Branches.read_branch_catalog
    Document.read_or Document.read_document World.get World.call Mem.get Assoc.lookup run_writes
    Mem.put is_empty Mem.refuses Assoc.insert bytes_eq manifest_key branches_key
    Stream.read_checkpoints Mem.sort_strings Manifest.read
init_run = refl

init_checkpoints-NoneBelow_example : NoneBelow 4 ((97 ∷ [], 4) ∷ [])
init_checkpoints-NoneBelow_example =
    init_checkpoints-NoneBelow init_codecs first_bytes none a_scope 4 ((97 ∷ [], 4) ∷ [])
      with_branches found.2 init_run
