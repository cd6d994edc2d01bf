-- ===== src/Ingest/Client/Upserts.antt =====
-- What an upsert leaves in the log of its namespace, and what the flusher gathers from it.
use cloudy_neigh.Prelude.{
  ℕ, ◌==◌, ==_iff, ◌≡◌, refl, sym, ap, ◌∙◌, Bool, true, false, Option, none, some, List, [], ◌∷◌,
  Bytes, bytes_eq, bytes_eq_iff, Error, Result, ok, err, ◌⊎◌, inl, inr, Bool-cases, arith, All,
}
use cloudy_neigh.Prelude.Assoc
use cloudy_neigh.Prelude.Assoc.{Assoc, member}
use cloudy_neigh.ObjectStore.Defs.{Context}
use cloudy_neigh.ObjectStore.World.{World}
use cloudy_neigh.RecordIo.Scanner.{default_max_record_size}
use cloudy_neigh.RecordIo.Scanner.Accepts.{Fit}
use cloudy_neigh.Namespace.Names.{Scope, prefix_of, wal_prefix}
use cloudy_neigh.LogStream.Log
use cloudy_neigh.LogStream.Log.{Log, append}
use cloudy_neigh.LogStream.Log.Batch.{read-append, append-prefix}
use cloudy_neigh.Ingest.Messages.{Codecs, Record}
use cloudy_neigh.Ingest.Client.{
  Ingester, Opened, keep_log, marshalled, register_namespace, open_log, get_or_create_log, kept_log,
  append_opened, append_records, put_mutations, answered, upsert,
}

-- Each log that is kept is the one of its key.
abbrev pub LogsMatch : Ingester → Type 0
LogsMatch ing = All (λ (p : Bytes × Log). p.1.prefix ≡ p.0) ing.logs

lookup-LogsMatch :
    (k : Bytes) (l : Log) (m : Assoc Log)
    → All (λ (p : Bytes × Log). p.1.prefix ≡ p.0) m
    → Assoc.lookup k m ≡ some l
    → l.prefix ≡ k
unfolding Assoc.lookup
lookup-LogsMatch k l [] h e = cc
lookup-LogsMatch k l ((j, l') ∷ m) (p, h) e = elim (Bool-cases (bytes_eq j k)) [
  | inl is_key ↦
      let here : some l' ≡ some l = rw is_key at e in
      let same : l' ≡ l = cc in
      ap (λ (x : Log). x.prefix) (sym same) ∙ p ∙ (bytes_eq_iff j k).0 is_key
  | inr other ↦ lookup-LogsMatch k l m h (rw other at e)
]

insert-LogsMatch :
    (k : Bytes) (l : Log) (m : Assoc Log)
    → All (λ (p : Bytes × Log). p.1.prefix ≡ p.0) m
    → l.prefix ≡ k
    → All (λ (p : Bytes × Log). p.1.prefix ≡ p.0) (Assoc.insert k l m)
unfolding Assoc.insert
insert-LogsMatch k l [] h e = (e, tt)
insert-LogsMatch k l ((j, l') ∷ m) (p, h) e = elim (Bool-cases (bytes_eq j k)) [
  | inl is_key ↦ rw is_key (e, h)
  | inr other ↦ rw other (p, insert-LogsMatch k l m h e)
]

module _ (codecs : Codecs) (ctx : Context) (now : ℕ) where
  abbrev OpenedMatch : Scope → Opened → Type 0
  OpenedMatch scope o =
      LogsMatch o.ingester
      × (((l : Log) × (o.log ≡ ok l) × (l.prefix ≡ wal_prefix scope))
          ⊎ ((e : Error) × (o.log ≡ err e)))

  register_namespace-LogsMatch :
      (scope : Scope) (b : Bool) (ing : Ingester) (w : World)
      → LogsMatch ing
      → LogsMatch (register_namespace codecs ctx now scope b ing w).0
  register_namespace-LogsMatch scope true ing w h = h
  register_namespace-LogsMatch scope false ing w h = h

  new-prefix : (prefix : Bytes) (l : Log) → Log.new prefix ≡ ok l → l.prefix ≡ prefix
  unfolding Log.new
  new-prefix prefix l h = ground arith

  keep_log-Match :
      (scope : Scope) (ing : Ingester) (w : World) (r : Result Log)
      → LogsMatch ing
      → Log.new (wal_prefix scope) ≡ r
      → OpenedMatch scope (keep_log (wal_prefix scope) ing w r)
  keep_log-Match scope ing w (ok l) h e =
      let at = new-prefix (wal_prefix scope) l e in
      (insert-LogsMatch (wal_prefix scope) l ing.logs h at, inl (l, refl, at))
  keep_log-Match scope ing w (err x) h e = (h, inr (x, refl))

  open_log-Match :
      (scope : Scope) (o : Option Log) (ing : Ingester) (w : World)
      → LogsMatch ing
      → Assoc.lookup (wal_prefix scope) ing.logs ≡ o
      → OpenedMatch scope (open_log codecs ctx now scope o ing w)
  open_log-Match scope (some l) ing w h e =
      (h, inl (l, refl, lookup-LogsMatch (wal_prefix scope) l ing.logs h e))
  open_log-Match scope none ing w h e =
      let known = member (prefix_of scope) ing.registered in
      let p = register_namespace codecs ctx now scope known ing w in
      keep_log-Match scope p.0 p.1 (Log.new (wal_prefix scope))
        (register_namespace-LogsMatch scope known ing w h) refl

  get_or_create_log-Match :
      (scope : Scope) (ing : Ingester) (w : World)
      → LogsMatch ing
      → OpenedMatch scope (get_or_create_log codecs ctx now scope ing w)
  unfolding get_or_create_log
  get_or_create_log-Match scope ing w h =
      open_log-Match scope (Assoc.lookup (wal_prefix scope) ing.logs) ing w h refl

  -- The log that readers of the namespace open.
  abbrev pub log_of : Scope → Log
  log_of scope = record { prefix = wal_prefix scope; last_known = 0 }

  -- A batch of the log holds the records, at a number that is not that of no batch.
  abbrev pub Holds : Scope → List Bytes → ℕ → World → Type 0
  Holds scope rs n w =
      (Log.read none n (log_of scope) (record { store = w.store; schedule = [] })).0 ≡ ok rs

  append_opened-LogsMatch :
      (scope : Scope) (records : Result (List Bytes)) (o : Opened)
      → OpenedMatch scope o
      → LogsMatch (append_opened codecs ctx now scope records o.log o.ingester o.world).1
  append_opened-LogsMatch scope records o (h, inr (x, e)) = rw e h
  append_opened-LogsMatch scope (err x) o (h, inl (l, e, at)) = rw e h
  append_opened-LogsMatch scope (ok rs) o (h, inl (l, e, at)) = rw e (
      insert-LogsMatch (wal_prefix scope) (append ctx rs l o.world).1 o.ingester.logs h
        (append-prefix ctx rs l o.world ∙ at))

  append_records-LogsMatch :
      (scope : Scope) (records : Result (List Bytes)) (ing : Ingester) (w : World)
      → LogsMatch ing
      → LogsMatch (append_records codecs ctx now scope records ing w).1
  unfolding append_records
  append_records-LogsMatch scope records ing w h =
      append_opened-LogsMatch scope records (get_or_create_log codecs ctx now scope ing w)
        (get_or_create_log-Match scope ing w h)

  answered-ingester : (p : Result ℕ × Ingester × World) → (answered codecs ctx now p).1 ≡ p.1
  answered-ingester (ok n, ing, w) = refl
  answered-ingester (err e, ing, w) = refl

  -- The ingester keeps each log under its own prefix, whether an upsert succeeds or not.
  pub upsert-LogsMatch :
      (ns branch : Bytes) (recs : List Record) (ing : Ingester) (w : World)
      → LogsMatch ing
      → LogsMatch (upsert codecs ctx now ns branch recs ing w).1
  unfolding upsert
  upsert-LogsMatch ns branch [] ing w h = h
  upsert-LogsMatch ns branch (rec ∷ recs) ing w h =
      let scope : Scope = record { name = ns } in
      let records = marshalled (put_mutations codecs ctx now branch (rec ∷ recs)) in
      rw (answered-ingester (append_records codecs ctx now scope records ing w))
        (append_records-LogsMatch scope records ing w h)

  answered-ok :
      (p : Result ℕ × Ingester × World) (ing : Ingester) (w : World)
      → answered codecs ctx now p ≡ (ok tt, ing, w)
      → (n : ℕ) × (p ≡ (ok n, ing, w))
  answered-ok (ok n, ing', w') ing w h = (n, cc)
  answered-ok (err e, ing', w') ing w h = cc

  kept_log-ok :
      (k : Bytes) (ing ing' : Ingester) (p : Result ℕ × Log × World) (n : ℕ) (w : World)
      → kept_log codecs ctx now k ing p ≡ (ok n, ing', w)
      → (l : Log) × (p ≡ (ok n, l, w))
  kept_log-ok k ing ing' (r, l, w') n w h = (l, cc)

  read-prefix : (n : ℕ) (l l' : Log) → l.prefix ≡ l'.prefix → Log.read none n l ≡ Log.read none n l'
  unfolding Log.read
  read-prefix n l l' e =
      ap (λ (p : Bytes). Log.read none n (record { prefix = p; last_known = 0 })) e

  append-Holds :
      (scope : Scope) (rs : List Bytes) (l l' : Log) (w w' : World) (n : ℕ)
      → l.prefix ≡ wal_prefix scope
      → Fit default_max_record_size rs
      → append ctx rs l w ≡ (ok n, l', w')
      → (n ≡ 0) ⊎ Holds scope rs n w'
  append-Holds scope rs l l' w w' n at fit h = elim (Bool-cases (n == 0)) [
    | inl is_zero ↦ inl ((==_iff n 0).0 is_zero)
    | inr other ↦ inr (
        rw (← read-prefix n l (log_of scope) at)
          (read-append ctx rs l l' w w' n fit h (λ e. ground (arith, ==_iff n 0))))
  ]

  append_opened-Holds :
      (scope : Scope) (rs : List Bytes) (o : Opened) (n : ℕ) (ing : Ingester) (w : World)
      → OpenedMatch scope o
      → Fit default_max_record_size rs
      → append_opened codecs ctx now scope (ok rs) o.log o.ingester o.world ≡ (ok n, ing, w)
      → (n ≡ 0) ⊎ Holds scope rs n w
  append_opened-Holds scope rs o n ing w (_, inr (x, e)) fit h =
      let failed : append_opened codecs ctx now scope (ok rs) (err x) o.ingester o.world
          ≡ (ok n, ing, w) =
        rw e at h in
      cc
  append_opened-Holds scope rs o n ing w (_, inl (l, e, at)) fit h =
      let (l', ran) =
        kept_log-ok (wal_prefix scope) o.ingester ing (append ctx rs l o.world) n w (rw e at h) in
      append-Holds scope rs l l' o.world w n at fit ran

  pub append_records-Holds :
      (scope : Scope) (rs : List Bytes) (ing ing' : Ingester) (w w' : World) (n : ℕ)
      → LogsMatch ing
      → Fit default_max_record_size rs
      → append_records codecs ctx now scope (ok rs) ing w ≡ (ok n, ing', w')
      → (n ≡ 0) ⊎ Holds scope rs n w'
  unfolding append_records
  append_records-Holds scope rs ing ing' w w' n match fit h =
      append_opened-Holds scope rs (get_or_create_log codecs ctx now scope ing w) n ing' w'
        (get_or_create_log-Match scope ing w match) fit h

  -- When an upsert succeeds, it has appended its records, marshalled and in their order, to the log of
  -- its namespace, and under the number that this append returned the log holds a batch with these
  -- records (or the number has wrapped around to 0, which stands for no batch).
  -- The records fit the scanner, the ingester keeps each log under its own prefix, and nothing
  -- interferes with the read.
  pub upsert-read :
      (ns branch : Bytes) (rec : Record) (recs : List Record) (rs : List Bytes)
      (ing ing' : Ingester) (w w' : World)
      → LogsMatch ing
      → marshalled (put_mutations codecs ctx now branch (rec ∷ recs)) ≡ ok rs
      → Fit default_max_record_size rs
      → upsert codecs ctx now ns branch (rec ∷ recs) ing w ≡ (ok tt, ing', w')
      → (n : ℕ) × (append_records codecs ctx now (record { name = ns }) (ok rs) ing w
          ≡ (ok n, ing', w'))
        × ((n ≡ 0) ⊎ Holds (record { name = ns }) rs n w')
  unfolding upsert
  upsert-read ns branch rec recs rs ing ing' w w' match encoded fit h =
      let scope : Scope = record { name = ns } in
      let (n, ran) =
        answered-ok (append_records codecs ctx now scope (ok rs) ing w) ing' w' (rw encoded at h) in
      (n, ran, append_records-Holds scope rs ing ing' w w' n match fit ran)
