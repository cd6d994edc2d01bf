-- ===== src/Ingest/Flush.antt =====
-- ingest/flusher.go, `processRecords` and `flushBranch`: the mutations of one batch of the log become
-- a segment, and the manifest of their branch takes it up together with the number of the batch.
pub mod Commits
pub mod Batches
use cloudy_neigh.Prelude.{
  ℕ, ◌+◌, ◌-◌, ◌/◌, ◌%◌, Bool, true, false, ◌&&◌, not, Option, none, some, List, [], ◌∷◌, ◌++◌,
  Bytes, length, is_empty, bytes_eq, ltb, leb, if◌then◌else◌, Error, Result, ok, err,
  is_precondition_failed, mixed_branches, undecodable,
}
use cloudy_neigh.Prelude.Assoc
use cloudy_neigh.Prelude.Assoc.{Assoc}
use cloudy_neigh.ObjectStore.Defs.{Context, if_absent}
use cloudy_neigh.ObjectStore.World
use cloudy_neigh.ObjectStore.World.{World, Io, pure, raise, lift, attempt, ◌>>=◌}
use cloudy_neigh.ObjectStore.Document.{Decision, keep, replace, read_or, update_loop}
use cloudy_neigh.Namespace.Names.{Scope, segment_key, manifest_key}
use cloudy_neigh.Namespace.Catalog.{tries}
use cloudy_neigh.Namespace.Branches.{add_branch}
use cloudy_neigh.Manifest.{BranchManifest, SegmentRef}
use cloudy_neigh.Segment.{DocumentMutation, encode_segment}
use cloudy_neigh.Ingest.Messages.{
  Codecs, WalRecord, mutation, branch_event, no_record, BranchLifecycleEvent, EventType, fork,
  other,
}

-- The numbers up to which the branches are known to be flushed.
abbrev pub Checkpoints : Type 0
Checkpoints = Assoc ℕ

hex_char : ℕ → ℕ
hex_char d = if ltb d 10 then b'0' + d else b'a' + (d - 10)

-- hex.EncodeToString
unfoldable pub hex_encode : Bytes → Bytes
unfolding hex_char
hex_encode [] = []
hex_encode (b ∷ bs) = hex_char (b / 16) ∷ hex_char (b % 16) ∷ hex_encode bs

-- What `processRecords` gathers.
pub record Batch : Type 0 where
  pub branch : Bytes
  pub mutations : List DocumentMutation
  pub checkpoints : Checkpoints

-- `lastSeq, ok := …; ok && seq <= lastSeq`
abbrev pub passed : ℕ → Option ℕ → Bool
passed seq none = false
passed seq (some last_seq) = leb seq last_seq

-- `if evt.Type == FORK`, and a checkpoint that is not there or lower
abbrev pub forked : EventType → Bytes → ℕ → Checkpoints → Checkpoints
forked (other n) branch seq checkpoints = checkpoints
forked fork branch seq checkpoints =
    if passed seq (Assoc.lookup branch checkpoints)
    then checkpoints
    else Assoc.insert branch seq checkpoints

-- A mutation with a branch; `true` where the batch has another branch already.
abbrev pub add_mutation : ℕ → DocumentMutation → Batch → Bool → Option Error × Batch
add_mutation seq m b true = (some mixed_branches, b)
add_mutation seq m b false = (
  none,
  (if passed seq (Assoc.lookup m.branch b.checkpoints)
      then record b { branch = m.branch }
      else record b { branch = m.branch; mutations = b.mutations ++ (m ∷ []) }),
)

-- One record of the batch.
unfoldable pub add_record : ℕ → Option WalRecord → Batch → Option Error × Batch
add_record seq none b = (some undecodable, b)
add_record seq (some (branch_event e)) b =
    (none, record b { checkpoints = forked e.event_type e.branch seq b.checkpoints })
add_record seq (some no_record) b = (none, b)
add_record seq (some (mutation m)) b =
    if is_empty m.branch
    then (none, b)
    else add_mutation seq m b (not (is_empty b.branch) && not (bytes_eq m.branch b.branch))

abbrev pub and_then : (Batch → Option Error × Batch) → Option Error × Batch → Option Error × Batch
and_then go (some e, b) = (some e, b)
and_then go (none, b) = go b

abbrev pub fresh_manifest : BranchManifest
fresh_manifest = record { checkpoint_seq = 0; schema_version = 1; segments = [] }

-- The manifest with one more segment, up to the batch `seq`.
abbrev pub advanced : ℕ → SegmentRef → BranchManifest → BranchManifest
advanced seq ref m = record m { checkpoint_seq = seq; segments = m.segments ++ (ref ∷ []) }

-- What is done with the manifest that was read: nothing, if it has the batch already.
abbrev pub flush_found : ℕ → SegmentRef → BranchManifest → Bool → Decision BranchManifest ℕ
flush_found seq ref m true = keep (ok m.checkpoint_seq)
flush_found seq ref m false = replace (advanced seq ref m) (λ _. seq)

abbrev pub flush_step : ℕ → SegmentRef → BranchManifest → Bytes → Decision BranchManifest ℕ
flush_step seq ref m gen = flush_found seq ref m (leb seq m.checkpoint_seq)

-- The checkpoint that a flush has found or made is noted.
abbrev pub noted : Bytes → Checkpoints → Result ℕ × World → Result (Unit {0}) × Checkpoints × World
noted branch checkpoints (ok checkpoint, w) = (ok tt, Assoc.insert branch checkpoint checkpoints, w)
noted branch checkpoints (err e, w) = (err e, checkpoints, w)

module _ (codecs : Codecs) (sha256 : Bytes → Bytes) (ctx : Context) (scope : Scope) where
  unfoldable pub add_records : ℕ → List Bytes → Batch → Option Error × Batch
  add_records seq [] b = (none, b)
  add_records seq (rec ∷ recs) b =
      and_then (add_records seq recs) (add_record seq (codecs.wal_record.unmarshal rec) b)

  abbrev pub segment_id : Bytes → Bytes
  segment_id content = hex_encode (sha256 content)

  -- The upload of a segment, which may be there already.
  unfoldable pub upload : Bytes → Io (Unit {0})
  upload content =
      attempt (World.put ctx (segment_key scope (segment_id content)) content if_absent)
        (λ _. pure tt) (λ e. if is_precondition_failed e then pure tt else raise e)

  abbrev pub segment_ref : List DocumentMutation → Bytes → SegmentRef
  segment_ref mutations content = record {
    segment_id = segment_id content;
    doc_count = length mutations;
    docs_size = length content;
  }

  -- The loop on the manifest: the checkpoint that it ends with.
  unfoldable pub commit : Bytes → SegmentRef → ℕ → Io ℕ
  commit branch ref seq =
      let key = manifest_key scope branch in
      tries (λ n.
        update_loop codecs.manifest key ctx n (read_or codecs.manifest key ctx fresh_manifest)
          (flush_step seq ref))

  -- The manifest, and then the list of branches.
  unfoldable pub register : Bytes → SegmentRef → ℕ → Io ℕ
  register branch ref seq = commit branch ref seq >>= λ checkpoint.
      (add_branch codecs.branches ctx scope branch >>= λ _. pure checkpoint)

  unfoldable pub flush_mutations : Bytes → List DocumentMutation → ℕ → Io ℕ
  flush_mutations branch mutations seq =
      lift (encode_segment codecs.document_mutation mutations) >>= λ content.
      (upload content >>= λ _. register branch (segment_ref mutations content) seq)

  -- flushBranch
  unfoldable pub flush_branch :
      Bytes
      → List DocumentMutation
      → ℕ
      → Checkpoints
      → World
      → Result (Unit {0}) × Checkpoints × World
  flush_branch branch [] seq checkpoints w = (ok tt, checkpoints, w)
  flush_branch branch (m ∷ ms) seq checkpoints w =
      noted branch checkpoints (flush_mutations branch (m ∷ ms) seq w)

  abbrev pub flush_batch :
      ℕ → Option Error × Batch → World → Result (Unit {0}) × Checkpoints × World
  flush_batch seq (some e, b) w = (err e, b.checkpoints, w)
  flush_batch seq (none, b) w = flush_branch b.branch b.mutations seq b.checkpoints w

  -- processRecords
  unfoldable pub process_records :
      ℕ → List Bytes → Checkpoints → World → Result (Unit {0}) × Checkpoints × World
  process_records seq records checkpoints w =
      flush_batch seq
        (add_records seq records
          (record { branch = []; mutations = []; checkpoints = checkpoints }))
        w
