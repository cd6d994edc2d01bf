-- ===== src/Ingest/Client.antt =====
-- ingest/ingester.go: writing mutations to the log of a namespace, and forking a branch.
pub mod Upserts
pub mod Forks
use cloudy_neigh.Prelude.{
  ℕ, Bool, true, false, Option, none, some, List, [], ◌∷◌, Bytes, if◌then◌else◌, Error, Result, ok,
  err, is_not_found, is_precondition_failed, branch_already_exists, unencodable,
}
use cloudy_neigh.Prelude.Assoc
use cloudy_neigh.Prelude.Assoc.{Assoc, member}
use cloudy_neigh.ObjectStore.Defs.{Context}
use cloudy_neigh.ObjectStore.World
use cloudy_neigh.ObjectStore.World.{World, Io, pure, raise, lift, attempt, ◌>>=◌}
use cloudy_neigh.Namespace.Names.{Scope, prefix_of, wal_prefix, manifest_key}
use cloudy_neigh.Namespace.Catalog.{create_namespace}
use cloudy_neigh.Namespace.Branches.{add_branch, remove_branch}
use cloudy_neigh.Manifest
use cloudy_neigh.Manifest.{BranchManifest}
use cloudy_neigh.Segment.{DocumentMutation, MutationOp, put, delete}
use cloudy_neigh.LogStream.Log
use cloudy_neigh.LogStream.Log.{Log, append}
use cloudy_neigh.Ingest.Messages.{
  Codecs, Record, WalRecord, mutation, branch_event, BranchLifecycleEvent, fork,
}

-- The logs by their prefixes, and the namespaces that it has tried to create. (The mutex is held
-- between the calls of the store only; one goroutine uses the ingester here.)
pub record Ingester : Type 0 where
  pub logs : Assoc Log
  pub registered : List Bytes

-- NewIngester, over a store that is there
abbrev pub new_ingester : Ingester
new_ingester = record { logs = []; registered = [] }

-- A log was found, or made.
pub record Opened : Type 0 where
  pub log : Result Log
  pub ingester : Ingester
  pub world : World

abbrev pub keep_log : Bytes → Ingester → World → Result Log → Opened
keep_log key ing w (err e) = record { log = err e; ingester = ing; world = w }
keep_log key ing w (ok l) = record {
  log = ok l;
  ingester = record ing { logs = Assoc.insert key l ing.logs };
  world = w;
}

-- The marshalled records of a batch, up to the first that cannot be marshalled.
abbrev pub marshalled : List (Option Bytes) → Result (List Bytes)
marshalled [] = ok []
marshalled (none ∷ rs) = err unencodable
marshalled (some b ∷ rs) = elim (marshalled rs) [ ok bs ↦ ok (b ∷ bs) | err e ↦ err e ]

module _ (codecs : Codecs) (ctx : Context) (now : ℕ) where
  -- The namespace is created once; whether that succeeds is not looked at.
  abbrev pub register_namespace : Scope → Bool → Ingester → World → Ingester × World
  register_namespace scope true ing w = (ing, w)
  register_namespace scope false ing w = (
    record ing { registered = prefix_of scope ∷ ing.registered },
    (create_namespace codecs.tenant_catalog ctx scope.name now w).1,
  )

  abbrev pub open_log : Scope → Option Log → Ingester → World → Opened
  open_log scope (some l) ing w = record { log = ok l; ingester = ing; world = w }
  open_log scope none ing w =
      let (ing', w') = register_namespace scope (member (prefix_of scope) ing.registered) ing w in
      keep_log (wal_prefix scope) ing' w' (Log.new (wal_prefix scope))

  -- getOrCreateLog
  unfoldable pub get_or_create_log : Scope → Ingester → World → Opened
  get_or_create_log scope ing w = open_log scope (Assoc.lookup (wal_prefix scope) ing.logs) ing w

  -- The number of the batch, the ingester and the world behind it.
  abbrev pub kept_log : Bytes → Ingester → Result ℕ × Log × World → Result ℕ × Ingester × World
  kept_log key ing (r, l, w) = (r, record ing { logs = Assoc.insert key l ing.logs }, w)

  abbrev pub append_marshalled :
      Scope → Ingester → World → Log → Result (List Bytes) → Result ℕ × Ingester × World
  append_marshalled scope ing w l (err e) = (err e, ing, w)
  append_marshalled scope ing w l (ok records) =
      kept_log (wal_prefix scope) ing (append ctx records l w)

  abbrev pub append_opened :
      Scope → Result (List Bytes) → Result Log → Ingester → World → Result ℕ × Ingester × World
  append_opened scope records (err e) ing w = (err e, ing, w)
  append_opened scope records (ok l) ing w = append_marshalled scope ing w l records

  -- The log of the namespace, and then the records at its end.
  unfoldable pub append_records :
      Scope → Result (List Bytes) → Ingester → World → Result ℕ × Ingester × World
  append_records scope records ing w =
      let o = get_or_create_log scope ing w in append_opened scope records o.log o.ingester o.world

  abbrev pub put_mutation : Bytes → Record → Option Bytes → Option Bytes
  put_mutation branch rec none = none
  put_mutation branch rec (some payload) =
      codecs.wal_record.marshal
        (mutation (record { branch = branch; doc_id = rec.id; op = put; payload = payload }))

  abbrev pub put_mutations : Bytes → List Record → List (Option Bytes)
  put_mutations branch [] = []
  put_mutations branch (rec ∷ recs) =
      put_mutation branch rec (codecs.document.marshal rec) ∷ put_mutations branch recs

  abbrev pub delete_mutations : Bytes → List Bytes → List (Option Bytes)
  delete_mutations branch [] = []
  delete_mutations branch (id ∷ ids) =
      codecs.wal_record.marshal
        (mutation (record { branch = branch; doc_id = id; op = delete; payload = [] }))
      ∷ delete_mutations branch ids

  abbrev pub answered : Result ℕ × Ingester × World → Result (Unit {0}) × Ingester × World
  answered (ok _, ing, w) = (ok tt, ing, w)
  answered (err e, ing, w) = (err e, ing, w)

  -- Upsert
  unfoldable pub upsert :
      Bytes → Bytes → List Record → Ingester → World → Result (Unit {0}) × Ingester × World
  upsert ns branch [] ing w = (ok tt, ing, w)
  upsert ns branch (rec ∷ recs) ing w =
      answered (
        append_records (record { name = ns }) (marshalled (put_mutations branch (rec ∷ recs))) ing
          w)

  -- Delete
  unfoldable pub delete_ids :
      Bytes → Bytes → List Bytes → Ingester → World → Result (Unit {0}) × Ingester × World
  delete_ids ns branch [] ing w = (ok tt, ing, w)
  delete_ids ns branch (id ∷ ids) ing w = answered (
      append_records (record { name = ns }) (marshalled (delete_mutations branch (id ∷ ids))) ing w)

  -- The parent's manifest under the target's key, if nothing is there.
  unfoldable pub copy_manifest : Scope → Bytes → Bytes → Io Bytes
  copy_manifest scope source target =
      let key = manifest_key scope target in
      Manifest.read codecs.manifest ctx (manifest_key scope source) >>= λ parent.
      attempt (Manifest.read codecs.manifest ctx key) (λ _. raise branch_already_exists)
        (λ e.
          if is_not_found e
          then attempt (Manifest.write codecs.manifest ctx key (some parent.0) []) pure
              (λ x. if is_precondition_failed x then raise branch_already_exists else raise x)
          else raise e)

  -- The clean-up behind a failure, under a context of its own, whose own errors are dropped.
  unfoldable pub rollback : Context → Scope → Bytes → World → World
  rollback del_ctx scope target w =
      let w' = (World.delete del_ctx (manifest_key scope target) w).1 in
      (remove_branch codecs.branches del_ctx scope target w').1

  abbrev pub fork_event : Bytes → Bytes → Result (List Bytes)
  fork_event source target = marshalled (
      codecs.wal_record.marshal
        (branch_event (record { event_type = fork; branch = target; parent_branch = source }))
      ∷ [])

  abbrev pub undo :
      Context → Scope → Bytes → Error → Ingester → World → Result (Unit {0}) × Ingester × World
  undo del_ctx scope target e ing w = (err e, ing, rollback del_ctx scope target w)

  abbrev pub announced :
      Context → Scope → Bytes → Result ℕ × Ingester × World → Result (Unit {0}) × Ingester × World
  announced del_ctx scope target (ok _, ing, w) = (ok tt, ing, w)
  announced del_ctx scope target (err e, ing, w) = undo del_ctx scope target e ing w

  abbrev pub announce :
      Context
      → Scope
      → Bytes
      → Result (List Bytes)
      → Ingester
      → World
      → Result (Unit {0}) × Ingester × World
  announce del_ctx scope target (err e) ing w = undo del_ctx scope target e ing w
  announce del_ctx scope target (ok records) ing w =
      announced del_ctx scope target (append_records scope (ok records) ing w)

  abbrev pub listed :
      Context
      → Scope
      → Bytes
      → Bytes
      → Ingester
      → Result (Unit {0}) × World
      → Result (Unit {0}) × Ingester × World
  listed del_ctx scope source target ing (err e, w) = undo del_ctx scope target e ing w
  listed del_ctx scope source target ing (ok _, w) =
      announce del_ctx scope target (fork_event source target) ing w

  abbrev pub copied :
      Context
      → Scope
      → Bytes
      → Bytes
      → Ingester
      → Result Bytes × World
      → Result (Unit {0}) × Ingester × World
  copied del_ctx scope source target ing (err e, w) = (err e, ing, w)
  copied del_ctx scope source target ing (ok _, w) =
      listed del_ctx scope source target ing (add_branch codecs.branches ctx scope target w)

  -- Fork, where `del_ctx` is the context of the clean-up
  unfoldable pub fork_branch :
      Context → Bytes → Bytes → Bytes → Ingester → World → Result (Unit {0}) × Ingester × World
  fork_branch del_ctx ns source target ing w =
      let scope : Scope = record { name = ns } in
      copied del_ctx scope source target ing (copy_manifest scope source target w)
