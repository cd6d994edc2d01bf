-- ===== src/Ingest/Gathers.antt =====
-- What the ingester marshals for an upsert is what the flusher gathers from the batch.
use cloudy_neigh.Prelude.{
  ℕ, ◌≡◌, refl, sym, ap, ◌∙◌, true, false, ◌&&◌, not, Option, none, some, Option-cases, List, [],
  ◌∷◌, ◌++◌, Bytes, bytes_eq, bytes_eq_refl, is_empty, Error, Result, Result-cases, ok, err, ◌⊎◌,
  inl, inr, arith, append-nil, append_assoc,
}
use cloudy_neigh.Prelude.Assoc
use cloudy_neigh.ObjectStore.Defs.{Context}
use cloudy_neigh.Namespace.Names.{Scope}
use cloudy_neigh.Segment.{DocumentMutation, put}
use cloudy_neigh.Segment.RoundTrip.{IsFaithful}
use cloudy_neigh.Ingest.Messages.{Codecs, Record, mutation}
use cloudy_neigh.Ingest.Flush.{Batch, Checkpoints, passed, add_record, add_records, and_then}
use cloudy_neigh.Ingest.Flush.Batches.{start_of}
use cloudy_neigh.Ingest.Client.{marshalled, put_mutation, put_mutations}

abbrev refused : Error → Result (List Bytes)
refused x = err x

marshalled-cons :
    (o : Option Bytes) (os : List (Option Bytes)) (rs : List Bytes)
    → marshalled (o ∷ os) ≡ ok rs
    → (b : Bytes) × (bs : List Bytes) × (o ≡ some b) × (marshalled os ≡ ok bs) × (rs ≡ b ∷ bs)
marshalled-cons none os rs h = cc
marshalled-cons (some b) os rs h = elim (Result-cases (marshalled os)) [
  | inl (bs, e) ↦ let same : ok (b ∷ bs) ≡ ok rs = rw e at h in (b, bs, refl, e, cc)
  | inr (x, e) ↦ let no : refused x ≡ ok rs = rw e at h in cc
]

module _ (codecs : Codecs) (sha256 : Bytes → Bytes) (ctx : Context) (now : ℕ) (scope : Scope) where
  -- The mutation puts the document of the record, to the branch.
  pub record IsPut (branch : Bytes) (rec : Record) (m : DocumentMutation) : Type 0 where
    pub branch_of : m.branch ≡ branch
    pub id_of : m.doc_id ≡ rec.id
    pub is_put : m.op ≡ put
    pub payload_of : codecs.document.marshal rec ≡ some m.payload

  -- One mutation for each record, in their order.
  abbrev pub Puts : Bytes → List Record → List DocumentMutation → Type 0
  Puts branch [] [] = Unit
  Puts branch (rec ∷ recs) (m ∷ ms) = IsPut branch rec m × Puts branch recs ms
  Puts branch _ _ = ⊥

  put_mutation-some :
      (branch : Bytes) (rec : Record) (b : Bytes)
      → put_mutation codecs ctx now branch rec (codecs.document.marshal rec) ≡ some b
      → (m : DocumentMutation) × IsPut branch rec m
        × (codecs.wal_record.marshal (mutation m) ≡ some b)
  put_mutation-some branch rec b h = elim (Option-cases (codecs.document.marshal rec)) [
    | inl e ↦ absurd (ground (arith, e))
    | inr (payload, e) ↦ (
      record { branch = branch; doc_id = rec.id; op = put; payload = payload },
      record { branch_of = refl; id_of = refl; is_put = refl; payload_of = e },
      rw e at h,
    )
  ]

  add_record-mutation :
      (seq : ℕ) (m : DocumentMutation) (b : Batch)
      → is_empty m.branch ≡ false
      → (is_empty b.branch ≡ true) ⊎ (m.branch ≡ b.branch)
      → passed seq (Assoc.lookup m.branch b.checkpoints) ≡ false
      → add_record seq (some (mutation m)) b
        ≡ (none, record b { branch = m.branch; mutations = b.mutations ++ (m ∷ []) })
  unfolding add_record
  add_record-mutation seq m b is_named first lacks =
      let one : (not (is_empty b.branch) && not (bytes_eq m.branch b.branch)) ≡ false = elim first [
        | inl fresh ↦ rw fresh refl
        | inr same ↦ rw same (rw (bytes_eq_refl b.branch) (ground arith))
      ] in
      rw is_named (rw one (rw lacks refl))

  -- The batch behind the next mutation.
  abbrev with_mutation : DocumentMutation → Batch → Batch
  with_mutation m b = record b { branch = m.branch; mutations = b.mutations ++ (m ∷ []) }

  add_records-cons :
      (seq : ℕ) (m : DocumentMutation) (bytes : Bytes) (rs : List Bytes) (b : Batch)
      → IsFaithful codecs.wal_record
      → codecs.wal_record.marshal (mutation m) ≡ some bytes
      → is_empty m.branch ≡ false
      → (is_empty b.branch ≡ true) ⊎ (m.branch ≡ b.branch)
      → passed seq (Assoc.lookup m.branch b.checkpoints) ≡ false
      → add_records codecs sha256 ctx scope seq (bytes ∷ rs) b
        ≡ add_records codecs sha256 ctx scope seq rs (with_mutation m b)
  unfolding add_records
  add_records-cons seq m bytes rs b law enc is_named first lacks = rw (law (mutation m) bytes enc) (
      ap (and_then (add_records codecs sha256 ctx scope seq rs))
        (add_record-mutation seq m b is_named first lacks))

  -- The gathering ends with a mutation more for each record.
  abbrev Adds : ℕ → Bytes → List Record → List Bytes → Batch → Type 0
  Adds seq branch recs rs b =
      (ms : List DocumentMutation) × Puts branch recs ms
      × (add_records codecs sha256 ctx scope seq rs b
          ≡ (none, record b { branch = branch; mutations = b.mutations ++ ms }))

  Adds-cons :
      (seq : ℕ) (branch : Bytes) (rec : Record) (recs : List Record) (rs : List Bytes) (b : Batch)
      → IsFaithful codecs.wal_record
      → is_empty branch ≡ false
      → (is_empty b.branch ≡ true) ⊎ (branch ≡ b.branch)
      → passed seq (Assoc.lookup branch b.checkpoints) ≡ false
      → marshalled (put_mutations codecs ctx now branch (rec ∷ recs)) ≡ ok rs
      → ((rest : List Bytes) (m : DocumentMutation)
          → m.branch ≡ branch
          → marshalled (put_mutations codecs ctx now branch recs) ≡ ok rest
          → Adds seq branch recs rest (with_mutation m b))
      → Adds seq branch (rec ∷ recs) rs b
  Adds-cons seq branch rec recs rs b law is_named first lacks h go =
      let (bytes, rest, e, more, same) = marshalled-cons _ _ rs h in
      let (m, is_put, enc) = put_mutation-some branch rec bytes e in
      let at = is_put.branch_of in
      let here =
        add_records-cons seq m bytes rest b law enc (rw at is_named) (rw at first) (rw at lacks) in
      let (ms, puts, behind) = go rest m at more in
      rw same (
        m ∷ ms,
        (is_put, puts),
        here
            ∙ behind
            ∙ ap
                (λ (l : List DocumentMutation). (none, record b { branch = branch; mutations = l }))
                (append_assoc b.mutations (m ∷ []) ms),
      )

  add_records-puts :
      (seq : ℕ) (branch : Bytes) (recs : List Record) (rs : List Bytes) (b : Batch)
      → IsFaithful codecs.wal_record
      → is_empty branch ≡ false
      → b.branch ≡ branch
      → passed seq (Assoc.lookup branch b.checkpoints) ≡ false
      → marshalled (put_mutations codecs ctx now branch recs) ≡ ok rs
      → Adds seq branch recs rs b
  unfolding add_records
  add_records-puts seq branch [] rs b law is_named same_branch lacks h =
      let same : [] ≡ rs = cc in
      ([], tt, rw (← same) (rw (← same_branch) (rw (append-nil b.mutations) refl)))
  add_records-puts seq branch (rec ∷ recs) rs b law is_named same_branch lacks h =
      Adds-cons seq branch rec recs rs b law is_named (inr (sym same_branch)) lacks h
        (λ rest m at more.
          add_records-puts seq branch recs rest (with_mutation m b) law is_named at lacks more)

  -- From the log to the flush: what an upsert has marshalled is gathered, with no error, into a batch
  -- of the branch that it was made to, which holds for each record, in their order, a mutation that
  -- puts its document. The codec of the records of the log reads what it writes, the branch has a
  -- name, there is a record, and the branch's checkpoint is behind the batch.
  pub add_records-put_mutations :
      (seq : ℕ) (branch : Bytes) (rec : Record) (recs : List Record) (rs : List Bytes)
      (checkpoints : Checkpoints)
      → IsFaithful codecs.wal_record
      → is_empty branch ≡ false
      → passed seq (Assoc.lookup branch checkpoints) ≡ false
      → marshalled (put_mutations codecs ctx now branch (rec ∷ recs)) ≡ ok rs
      → (ms : List DocumentMutation) × Puts branch (rec ∷ recs) ms
        × (add_records codecs sha256 ctx scope seq rs (start_of checkpoints)
            ≡ (none, record { branch = branch; mutations = ms; checkpoints = checkpoints }))
  unfolding is_empty
  add_records-put_mutations seq branch rec recs rs checkpoints law is_named lacks h =
      Adds-cons seq branch rec recs rs (start_of checkpoints) law is_named (inl refl) lacks h
        (λ rest m at more.
          add_records-puts seq branch recs rest (with_mutation m (start_of checkpoints)) law
            is_named at lacks more)
