-- ===== src/LogStream/Log/Batch.antt =====
-- What is appended is read: the codec of a batch, and the calls of the store around it.
use cloudy_neigh.Prelude.{
  ℕ, zero, suc, ◌+◌, ◌%◌, ◌^◌, ◌≡◌, ◌≢◌, refl, sym, ap, ◌∙◌, none, some, List, [], ◌∷◌, Bytes,
  length, ◌==◌, if◌then◌else◌, Result, ok, err, is_precondition_failed, arith, bytes_eq_refl, inl,
  inr, Bool-cases, ==_iff,
}
use mathlib.Core.Path.{subst₂}
use cloudy_neigh.Prelude.Assoc
use cloudy_neigh.RecordIo.Writer.{new_writer, write_records}
use cloudy_neigh.RecordIo.Writer.Stream.{write_records-frames, close-ready}
use cloudy_neigh.RecordIo.Buffered.{buffer_sink}
use cloudy_neigh.RecordIo.Scanner.{
  Scanner, new_scanner, source_of, scan_all, default_max_record_size,
}
use cloudy_neigh.RecordIo.Scanner.Accepts.{frames, Fit, scan_all-frames}
use cloudy_neigh.ObjectStore.Defs.{Context, Object, if_absent}
use cloudy_neigh.ObjectStore.Mem
use cloudy_neigh.ObjectStore.Mem.{MemStore, MemEntry}
use cloudy_neigh.ObjectStore.Mem.Cas.{run_writes}
use cloudy_neigh.ObjectStore.Mem.Validity.{put_lem, lookup-put}
use cloudy_neigh.ObjectStore.World
use cloudy_neigh.ObjectStore.World.{World, Io, pure, raise, continue, ◌>>=◌}
use cloudy_neigh.ObjectStore.World.Inversion.{bind_ok, attempt_ok, answer_call-ok}
use cloudy_neigh.LogStream.Keys.{segment_key}
use cloudy_neigh.LogStream.Log.{
  Log, head, encode_batch, decode_batch, records_of, append_loop, append, append_from, appended,
  locate, tail, read, raise_to,
}

-- The bytes of a batch are the frames of its records.
pub encode_batch-frames : (rs : List Bytes) → encode_batch rs ≡ ok (frames rs)
unfolding encode_batch
encode_batch-frames rs =
    let (e, ready, bytes) = write_records-frames rs (new_writer buffer_sink) (record {
      no_error = refl;
      is_open = refl;
      sink_open = record { no_failure = refl; endless = refl; no_closer = refl };
    }) in
    let (e', written, _) = close-ready (write_records rs (new_writer buffer_sink)).1 ready in
    rw e (rw e' (ap ok (written ∙ bytes)))

records_of-ok :
    (p : List Bytes × Scanner) (rs : List Bytes)
    → p.0 ≡ rs
    → p.1.error ≡ none
    → records_of p ≡ ok rs
records_of-ok p rs h e = ground arith

-- Round trip of a batch, for records that the scanner takes.
pub decode_batch-encode_batch :
    (rs : List Bytes) (payload : Bytes)
    → Fit default_max_record_size rs
    → encode_batch rs ≡ ok payload
    → decode_batch payload ≡ ok rs
unfolding decode_batch
decode_batch-encode_batch rs payload fit e =
    let is_frames : payload ≡ frames rs = cc (e, encode_batch-frames rs) in
    let (got, clean) = scan_all-frames rs fit in
    rw is_frames (records_of-ok (scan_all (new_scanner (source_of (frames rs)))) rs got clean)

-- What a client's `Put` has done that was answered: it wrote to some state, and left the result.
abbrev pub Stored : Context → Bytes → Bytes → World → Type 0
Stored ctx key content w' =
    (m : MemStore) × (g : Bytes) × (Mem.put ctx key (ok content) if_absent m ≡ ok (g, w'.store))

put_answered :
    (ctx : Context) (key content : Bytes) (w w' : World) (g : Bytes)
    → World.put ctx key content if_absent w ≡ (ok g, w')
    → Stored ctx key content w'
unfolding World.put World.call
put_answered ctx key content w w' g h =
    let e = World.next_event w.schedule in
    let m = run_writes e.0.others w.store in
    (m, g, answer_call-ok e.0.answer (Mem.put ctx key (ok content) if_absent) m e.1 g w' h)

-- The number that the loop returns is that of an object which the client itself has put, on the
-- condition that there was none.
append_loop-Stored :
    (fuel : ℕ) (ctx : Context) (prefix payload : Bytes) (seq : ℕ) (w w' : World) (n : ℕ)
    → append_loop fuel ctx prefix payload seq w ≡ (ok n, w')
    → Stored ctx (segment_key prefix n) payload w'
unfolding append_loop World.attempt
append_loop-Stored zero ctx prefix payload seq w w' n h = cc
append_loop-Stored (suc fuel) ctx prefix payload seq w w' n h =
    after (World.put ctx (segment_key prefix seq) payload if_absent w) refl h
      (append_loop-Stored fuel ctx prefix payload)
  where
    again : ℕ → Io ℕ
    again = λ x. append_loop fuel ctx prefix payload ((x + 1) % 2 ^ 64)

    after :
        (p : Result Bytes × World)
        → World.put ctx (segment_key prefix seq) payload if_absent w ≡ p
        → continue
            (λ _. pure seq)
            (λ e. if is_precondition_failed e then head ctx prefix seq >>= again else raise e)
            p.0
            p.1
          ≡ (ok n, w')
        → ((s : ℕ) (u u' : World) (k : ℕ)
            → append_loop fuel ctx prefix payload s u ≡ (ok k, u')
            → Stored ctx (segment_key prefix k) payload u')
        → Stored ctx (segment_key prefix n) payload w'
    after (ok g, w1) e k ih =
        let same_seq : seq ≡ n = cc in
        let same_world : w1 ≡ w' = cc in
        subst₂ (λ (s : ℕ) (v : World). Stored ctx (segment_key prefix s) payload v) same_seq
          same_world (put_answered ctx (segment_key prefix seq) payload w w1 g e)
    after (err x, w1) e k ih = elim (Bool-cases (is_precondition_failed x)) [
      | inl taken ↦
          let (h1, w2, _, l) = bind_ok (head ctx prefix seq) again w1 n w' (rw taken at k) in
          ih ((h1 + 1) % 2 ^ 64) w2 w' n l
      | inr other ↦ let no : World.raise {A = ℕ} x w1 ≡ (ok n, w') = rw other at k in cc
    ]

-- A `Get` of what was stored, when nobody interferes.
get-Stored :
    (ctx ctx' : Context) (key content : Bytes) (w' : World)
    → Stored ctx key content w'
    → (o : Object) × (World.get none key (record { store = w'.store; schedule = [] })
        ≡ (ok (content, o), record { store = w'.store; schedule = [] }))
unfolding World.get World.call run_writes Mem.get Assoc.lookup
get-Stored ctx ctx' key content w' (m, g, p) =
    let w = put_lem ctx key if_absent m content g w'.store p in
    let e : MemEntry = record { content = content; generation = g } in
    let at : Assoc.lookup key w'.store.objects ≡ some e =
      lookup-put w key ∙ rw (bytes_eq_refl key) refl in
    (Mem.object_of key e, rw at refl)

locate-prefix :
    (ctx : Context) (log log1 : Log) (w w1 : World)
    → locate ctx log w ≡ (ok log1, w1)
    → log1.prefix ≡ log.prefix
unfolding locate
locate-prefix ctx log log1 w w1 h = elim (Bool-cases (log.last_known == 0)) [
  | inl unknown ↦
      let (t, w2, _, e) =
        bind_ok (tail ctx log.prefix) (λ t. pure (raise_to t log)) w log1 w1 (rw unknown at h) in
      let same : raise_to t log ≡ log1 = cc in ap (λ (l : Log). l.prefix) (sym same) ∙ ground arith
  | inr known ↦
      let e : pure log w ≡ (ok log1, w1) = rw known at h in
      let same : log ≡ log1 = cc in ap (λ (l : Log). l.prefix) (sym same)
]

appended_ok :
    (log log' : Log) (p : Result ℕ × World) (n : ℕ) (w' : World)
    → appended log p ≡ (ok n, log', w')
    → p ≡ (ok n, w')
appended_ok log log' (ok m, w1) n w' h = cc
appended_ok log log' (err e, w1) n w' h = cc

append_from-Stored :
    (ctx : Context) (payload : Bytes) (log log' : Log) (p : Result Log × World) (w' : World) (n : ℕ)
    → ((log1 : Log) (w1 : World) → p ≡ (ok log1, w1) → log1.prefix ≡ log.prefix)
    → append_from ctx payload log p ≡ (ok n, log', w')
    → Stored ctx (segment_key log.prefix n) payload w'
append_from-Stored ctx payload log log' (err e, w1) w' n keeps h = cc
append_from-Stored ctx payload log log' (ok log1, w1) w' n keeps h =
    let loop =
      append_loop (length w1.schedule + 2) ctx log1.prefix payload ((log1.last_known + 1) % 2 ^ 64)
        w1 in
    let returned : loop ≡ (ok n, w') = appended_ok log1 log' loop n w' h in
    rw (← keeps log1 w1 refl) (append_loop-Stored _ ctx log1.prefix payload _ w1 w' n returned)

-- `Read` of a batch that is stored.
read-Stored :
    (ctx : Context) (payload : Bytes) (batch : List Bytes) (log : Log) (w' : World) (n : ℕ)
    → n ≢ 0
    → Stored ctx (segment_key log.prefix n) payload w'
    → decode_batch payload ≡ ok batch
    → (read none n log (record { store = w'.store; schedule = [] })).0 ≡ ok batch
unfolding read
read-Stored ctx payload batch log w' n nz st d = elim (Bool-cases (n == 0)) [
  | inl zero_n ↦ absurd (nz ((==_iff n 0).0 zero_n))
  | inr other ↦
      let (o, got) = get-Stored ctx none (segment_key log.prefix n) payload w' st in
      rw other (rw (attempt_ok _ _ _ _ _ _ got) d)
]

-- A batch that was appended is read back. Whatever other clients wrote while the batch was appended,
-- however many tries it took and whatever failed in between: when `Append` returns a number, then
-- `Read` of that number, with no interference after that, returns the records. (The records fit the
-- scanner, and the number is not 0.)
pub read-append :
    (ctx : Context) (rs : List Bytes) (log log' : Log) (w w' : World) (n : ℕ)
    → Fit default_max_record_size rs
    → append ctx rs log w ≡ (ok n, log', w')
    → n ≢ 0
    → (read none n log (record { store = w'.store; schedule = [] })).0 ≡ ok rs
unfolding append
read-append ctx [] log log' w w' n fit h nz = cc
read-append ctx (r ∷ rs) log log' w w' n fit h nz =
    let batch = r ∷ rs in
    let encoded = encode_batch-frames batch in
    let stored =
      append_from-Stored ctx (frames batch) log log' (locate ctx log w) w' n
        (λ log1 w1 e. locate-prefix ctx log log1 w w1 e) (rw encoded at h) in
    read-Stored ctx (frames batch) batch log w' n nz stored
      (decode_batch-encode_batch batch (frames batch) fit encoded)

raise_to-prefix : (n : ℕ) (log : Log) → (raise_to n log).prefix ≡ log.prefix
raise_to-prefix n log = ground arith

appended-prefix : (log : Log) (p : Result ℕ × World) → (appended log p).1.prefix ≡ log.prefix
appended-prefix log (ok seq, w) = raise_to-prefix seq log
appended-prefix log (err e, w) = refl

append_from-prefix :
    (ctx : Context) (payload : Bytes) (log : Log) (p : Result Log × World)
    → ((log1 : Log) (w1 : World) → p ≡ (ok log1, w1) → log1.prefix ≡ log.prefix)
    → (append_from ctx payload log p).1.prefix ≡ log.prefix
append_from-prefix ctx payload log (err e, w) keeps = refl
append_from-prefix ctx payload log (ok log1, w) keeps = appended-prefix log1 _ ∙ keeps log1 w refl

-- A log stays at its prefix.
pub append-prefix :
    (ctx : Context) (rs : List Bytes) (log : Log) (w : World)
    → (append ctx rs log w).1.prefix ≡ log.prefix
unfolding append
append-prefix ctx [] log w = refl
append-prefix ctx (r ∷ rs) log w = rw (encode_batch-frames (r ∷ rs)) (
    append_from-prefix ctx (frames (r ∷ rs)) log (locate ctx log w)
      (λ log1 w1 e. locate-prefix ctx log log1 w w1 e))
