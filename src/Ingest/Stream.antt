-- ===== src/Ingest/Stream.antt =====
-- ingest/flusher.go: the loop that follows the log of a namespace, its last run at shutdown, and the
-- flusher that starts one such loop for each namespace. A loop is told from outside that it is to end
-- by its context; `Run` is modelled by its rounds.
pub mod Start
use cloudy_neigh.Prelude.{
  ℕ, zero, suc, ◌+◌, ◌%◌, ◌^◌, Bool, true, false, ◌||◌, Option, none, some, List, [], ◌∷◌, ◌++◌,
  Bytes, leb, ltb, ◌==◌, if◌then◌else◌, Error, Result, ok, err, end_of_stream, is_not_found,
  is_context_error, out_of_fuel,
}
use cloudy_neigh.Prelude.Assoc
use cloudy_neigh.Prelude.Assoc.{Assoc}
use cloudy_neigh.ObjectStore.Defs.{Context}
use cloudy_neigh.ObjectStore.World.{World, Io, pure, raise, attempt, ◌>>=◌}
use cloudy_neigh.Namespace.Names.{Scope, manifest_key, wal_prefix}
use cloudy_neigh.Namespace.Branches.{list_branches}
use cloudy_neigh.Namespace.Catalog.{active_namespaces}
use cloudy_neigh.Manifest
use cloudy_neigh.Manifest.{BranchManifest}
use cloudy_neigh.LogStream.Log
use cloudy_neigh.LogStream.Log.{Log}
use cloudy_neigh.Ingest.Messages.{Codecs}
use cloudy_neigh.Ingest.Flush.{Checkpoints, process_records}

-- errors.Is(err, logstream.ErrEndOfStream)
abbrev pub is_end_of_stream : Error → Bool
is_end_of_stream end_of_stream = true
is_end_of_stream _ = false

-- The checkpoints, and the lowest of them, if there is one.
pub record Found : Type 0 where
  pub checkpoints : Checkpoints
  pub lowest : Option ℕ

-- if !hasBranch || m.CheckpointSeq < minCheckpoint
abbrev pub lower : ℕ → Option ℕ → Option ℕ
lower n none = some n
lower n (some m) = if ltb n m then some n else some m

abbrev pub with_manifest : Bytes → BranchManifest → Found → Found
with_manifest branch m f = record {
  checkpoints = Assoc.insert branch m.checkpoint_seq f.checkpoints;
  lowest = lower m.checkpoint_seq f.lowest;
}

abbrev pub or_zero : Option ℕ → ℕ
or_zero none = 0
or_zero (some n) = n

module _ (codecs : Codecs) (sha256 : Bytes → Bytes) (ctx : Context) (scope : Scope) where
  abbrev pub noted_manifest :
      (Found → World → Option Error × Found × World)
      → Bytes
      → Found
      → Result (BranchManifest × Bytes) × World
      → Option Error × Found × World
  noted_manifest go branch f (ok r, w) = go (with_manifest branch r.0 f) w
  noted_manifest go branch f (err e, w) = if is_not_found e then go f w else (some e, f, w)

  -- The loop over the branches; what it has noted stays when it fails.
  unfoldable pub read_checkpoints : List Bytes → Found → World → Option Error × Found × World
  read_checkpoints [] f w = (none, f, w)
  read_checkpoints (branch ∷ branches) f w =
      noted_manifest (read_checkpoints branches) branch f
        (Manifest.read codecs.manifest ctx (manifest_key scope branch) w)

  abbrev pub lowest_of : Option Error × Found × World → Result ℕ × Checkpoints × World
  lowest_of (some e, f, w) = (err e, f.checkpoints, w)
  lowest_of (none, f, w) = (ok (or_zero f.lowest), f.checkpoints, w)

  abbrev pub checkpoints_of :
      Checkpoints → Result (List Bytes) × World → Result ℕ × Checkpoints × World
  checkpoints_of checkpoints (err e, w) = (err e, checkpoints, w)
  checkpoints_of checkpoints (ok branches, w) =
      lowest_of (read_checkpoints branches (record { checkpoints = checkpoints; lowest = none }) w)

  -- initCheckpoints
  unfoldable pub init_checkpoints : Checkpoints → World → Result ℕ × Checkpoints × World
  init_checkpoints checkpoints w =
      checkpoints_of checkpoints (list_branches codecs.branches ctx scope w)

  abbrev pub the_log : Log
  the_log = record { prefix = wal_prefix scope; last_known = 0 }

  -- What a round of `Run` comes to: the next number, a wait for more, the last run from a number, or
  -- an error.
  pub data Round : Type 0 where
    next_round : ℕ → Round
    wait : ℕ → Round
    shut_down : ℕ → Round
    fail : Error → Round

  abbrev pub round_end : ℕ → Error → Round
  round_end seq e = if is_context_error e then shut_down seq else fail e

  abbrev pub processed : ℕ → Result (Unit {0}) × Checkpoints × World → Round × Checkpoints × World
  processed seq (ok _, c, w) = (next_round ((seq + 1) % 2 ^ 64), c, w)
  processed seq (err e, c, w) = (round_end seq e, c, w)

  abbrev pub process_read :
      ℕ → Checkpoints → Result (List Bytes) × World → Round × Checkpoints × World
  process_read seq c (ok records, w) =
      processed seq (process_records codecs sha256 ctx scope seq records c w)
  process_read seq c (err e, w) =
      if is_end_of_stream e then (wait seq, c, w) else (round_end seq e, c, w)

  -- One round of the loop of `Run`.
  unfoldable pub run_round : ℕ → Checkpoints → World → Round × Checkpoints × World
  run_round seq c w = process_read seq c (Log.read ctx seq the_log w)

  -- The drain at shutdown: everything that the log holds, from a number on.
  abbrev pub drained :
      (Checkpoints → World → Result (Unit {0}) × Checkpoints × World)
      → Result (Unit {0}) × Checkpoints × World
      → Result (Unit {0}) × Checkpoints × World
  drained go (ok _, c, w) = go c w
  drained go (err e, c, w) = (err e, c, w)

  abbrev pub drain_read :
      (Checkpoints → World → Result (Unit {0}) × Checkpoints × World)
      → ℕ
      → Checkpoints
      → Result (List Bytes) × World
      → Result (Unit {0}) × Checkpoints × World
  drain_read go seq c (ok records, w) =
      drained go (process_records codecs sha256 ctx scope seq records c w)
  drain_read go seq c (err e, w) = if is_end_of_stream e then (ok tt, c, w) else (err e, c, w)

  unfoldable pub drain : ℕ → ℕ → Checkpoints → World → Result (Unit {0}) × Checkpoints × World
  drain zero seq c w = (err out_of_fuel, c, w)
  drain (suc fuel) seq c w =
      drain_read (drain fuel ((seq + 1) % 2 ^ 64)) seq c (Log.read ctx seq the_log w)

  abbrev pub drain_from :
      ℕ → Result ℕ × Checkpoints × World → Result (Unit {0}) × Checkpoints × World
  drain_from fuel (ok lowest, c, w) = drain fuel ((lowest + 1) % 2 ^ 64) c w
  drain_from fuel (err e, c, w) = (err e, c, w)

  -- shutdownFlush
  unfoldable pub shutdown_flush :
      ℕ → ℕ → Checkpoints → World → Result (Unit {0}) × Checkpoints × World
  shutdown_flush fuel start_seq c w =
      if start_seq == 0 then drain_from fuel (init_checkpoints c w) else drain fuel start_seq c w

  abbrev pub started : Result ℕ × Checkpoints × World → Round × Checkpoints × World
  started (ok lowest, c, w) = (next_round ((lowest + 1) % 2 ^ 64), c, w)
  started (err e, c, w) = (round_end 0 e, c, w)

  -- What `Run` does in front of its loop.
  unfoldable pub run_start : World → Round × Checkpoints × World
  run_start w = started (init_checkpoints [] w)

-- discoverStreams: the scopes of the active namespaces.
abbrev pub scopes_of : List Bytes → List Scope
scopes_of [] = []
scopes_of (n ∷ ns) = record { name = n } ∷ scopes_of ns

unfoldable pub discover_streams : Codecs → Context → Io (List Scope)
discover_streams codecs ctx =
    active_namespaces codecs.tenant_catalog ctx >>= λ names. pure (scopes_of names)

-- A flusher's loops, by the prefixes of their logs, and whether each has been cancelled.
pub record Stream : Type 0 where
  pub scope : Scope
  pub is_cancelled : Bool

pub record Flusher : Type 0 where
  pub flushers : Assoc Stream

abbrev pub add_stream : Scope → Option Stream → Result Log → Flusher → Result (Unit {0}) × Flusher
add_stream scope (some _) log f = (ok tt, f)
add_stream scope none (err e) f = (err e, f)
add_stream scope none (ok log) f = (
  ok tt,
  record f {
    flushers =
        Assoc.insert (wal_prefix scope) (record { scope = scope; is_cancelled = false }) f.flushers;
  },
)

-- startStream
unfoldable pub start_stream : Scope → Flusher → Result (Unit {0}) × Flusher
start_stream scope f =
    add_stream scope (Assoc.lookup (wal_prefix scope) f.flushers) (Log.new (wal_prefix scope)) f

abbrev pub cancel_all : Assoc Stream → Assoc Stream
cancel_all [] = []
cancel_all ((k, s) ∷ m) = (k, record s { is_cancelled = true }) ∷ cancel_all m

-- stopAllStreams
abbrev pub stop_all_streams : Flusher → Flusher
stop_all_streams f = record f { flushers = cancel_all f.flushers }
