-- ===== src/LogStream/Log/Calm.antt =====
-- An append that nobody disturbs succeeds at once.
use cloudy_neigh.Prelude.{
  ℕ, suc, ◌+◌, ◌%◌, ◌^◌, ◌<◌, ◌≡◌, ◌≢◌, refl, ap, ◌∙◌, none, List, [], ◌∷◌, Bytes, length, ok,
  arith, inl, inr, Bool-cases, ==_iff, ◌==◌, is_empty,
}
use cloudy_neigh.Prelude.Assoc
use cloudy_neigh.RecordIo.Scanner.{default_max_record_size}
use cloudy_neigh.RecordIo.Scanner.Accepts.{frames, Fit}
use cloudy_neigh.ObjectStore.Defs.{if_absent}
use cloudy_neigh.ObjectStore.Generation.{local_generation}
use cloudy_neigh.ObjectStore.Mem
use cloudy_neigh.ObjectStore.Mem.{MemStore, MemEntry}
use cloudy_neigh.ObjectStore.Mem.Cas.{run_writes}
use cloudy_neigh.ObjectStore.World
use cloudy_neigh.ObjectStore.World.{World, pure}
use cloudy_neigh.ObjectStore.World.Inversion.{attempt_ok}
use cloudy_neigh.LogStream.Keys.{segment_key}
use cloudy_neigh.LogStream.Log.{
  Log, append_loop, append, append_from, append_batch, appended, locate, read, raise_to,
}
use cloudy_neigh.LogStream.Log.Batch.{encode_batch-frames, read-append}

abbrev pub calm : MemStore → World
calm m = record { store = m; schedule = [] }

put-calm :
    (key content : Bytes) (m : MemStore)
    → Assoc.lookup key m.objects ≡ none
    → (g : Bytes) × (w : World) × (World.put none key content if_absent (calm m) ≡ (ok g, w))
unfolding World.put World.call Mem.put Mem.refuses is_empty run_writes
put-calm key content m absent =
    let seq = (m.gen_seq + 1) % 2 ^ 64 in
    let g = local_generation seq (length content) in
    let e : MemEntry = record { content = content; generation = g } in
    (g, calm (record { objects = Assoc.insert key e m.objects; gen_seq = seq }), rw absent refl)

locate_known : (log : Log) (w : World) → log.last_known ≢ 0 → locate none log w ≡ (ok log, w)
unfolding locate
locate_known log w nz = elim (Bool-cases (log.last_known == 0)) [
  | inl zero_known ↦ absurd (nz ((==_iff log.last_known 0).0 zero_known))
  | inr known ↦ rw known refl
]

append_loop_first :
    (fuel : ℕ) (prefix payload g : Bytes) (seq : ℕ) (w w' : World)
    → World.put none (segment_key prefix seq) payload if_absent w ≡ (ok g, w')
    → append_loop (suc fuel) none prefix payload seq w ≡ (ok seq, w')
unfolding append_loop
append_loop_first fuel prefix payload g seq w w' put = attempt_ok _ _ _ w w' g put

append_known :
    (r : Bytes) (rs : List Bytes) (log : Log) (m : MemStore) (g : Bytes) (w' : World)
    → log.last_known ≢ 0
    → log.last_known + 1 < 2 ^ 64
    → World.put none
        (segment_key log.prefix (log.last_known + 1))
        (frames (r ∷ rs))
        if_absent
        (calm m)
      ≡ (ok g, w')
    → append none (r ∷ rs) log (calm m)
      ≡ (ok (log.last_known + 1), raise_to (log.last_known + 1) log, w')
unfolding append
append_known r rs log m g w' nz small put =
    ap (append_batch none log (calm m)) (encode_batch-frames (r ∷ rs))
    ∙ ap (append_from none (frames (r ∷ rs)) log) (locate_known log (calm m) nz)
    ∙ ap (λ seq. appended log (append_loop 2 none log.prefix (frames (r ∷ rs)) seq (calm m)))
        (omega arith)
    ∙ ap (appended log)
        (append_loop_first 1 log.prefix (frames (r ∷ rs)) g (log.last_known + 1) (calm m) w' put)

-- With a number known, and nothing under the next one, `Append` returns the next number, and `Read`
-- of it returns the records.
pub append-calm :
    (r : Bytes) (rs : List Bytes) (log : Log) (m : MemStore)
    → Fit default_max_record_size (r ∷ rs)
    → log.last_known ≢ 0
    → log.last_known + 1 < 2 ^ 64
    → Assoc.lookup (segment_key log.prefix (log.last_known + 1)) m.objects ≡ none
    → (log' : Log) × (w' : World) × (append none (r ∷ rs) log (calm m)
        ≡ (ok (log.last_known + 1), log', w'))
      × (log'.last_known ≡ log.last_known + 1)
      × ((read none (log.last_known + 1) log (calm w'.store)).0 ≡ ok (r ∷ rs))
append-calm r rs log m fit nz small absent =
    let (g, w', put) =
      put-calm (segment_key log.prefix (log.last_known + 1)) (frames (r ∷ rs)) m absent in
    let done = append_known r rs log m g w' nz small put in
    (
      raise_to (log.last_known + 1) log,
      w',
      done,
      ground arith,
      read-append none (r ∷ rs) log _ (calm m) w' (log.last_known + 1) fit done (omega arith),
    )
