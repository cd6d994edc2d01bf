-- ===== src/Ingest/Flush/Batches.antt =====
-- What the flusher gathers from a batch, and where the checkpoints stand behind it.
use cloudy_neigh.Prelude.{
  ℕ, ◌≤◌, ◌≡◌, refl, ap, ◌∙◌, Bool, true, false, ◌&&◌, not, Option, none, some, List, [], ◌∷◌, ◌++◌,
  Bytes, bytes_eq, bytes_eq_iff, bytes_eq_refl, is_empty, if◌then◌else◌, Error, ok, ◌⊎◌, inl, inr,
  Bool-cases, arith, All, All-append,
}
use cloudy_neigh.Prelude.Assoc
use cloudy_neigh.Prelude.Assoc.{lookup-insert}
use cloudy_neigh.ObjectStore.Defs.{Context}
use cloudy_neigh.ObjectStore.World.{World}
use cloudy_neigh.ObjectStore.World.Room.{RoomToWrite}
use cloudy_neigh.Namespace.Names.{Scope}
use cloudy_neigh.Manifest.{SegmentRef}
use cloudy_neigh.Segment.{DocumentMutation}
use cloudy_neigh.Ingest.Messages.{
  Codecs, WalRecord, mutation, branch_event, no_record, EventType, fork, other,
}
use cloudy_neigh.Ingest.Flush.{
  Checkpoints, Batch, passed, forked, add_mutation, add_record, and_then, add_records, flush_batch,
  process_records, flush_branch,
}
use cloudy_neigh.Ingest.Flush.Commits.{Committed, flush_branch-Flushed}

-- The number up to which a branch is known to be flushed; 0 when nothing is known.
abbrev at_least : Option ℕ → ℕ
at_least none = 0
at_least (some c) = c

abbrev pub checkpoint_of : Bytes → Checkpoints → ℕ
checkpoint_of branch checkpoints = at_least (Assoc.lookup branch checkpoints)

-- All mutations are of the batch's branch, which is there when a mutation is and whose checkpoint is
-- not behind the batch.
pub record Gathered (seq : ℕ) (b : Batch) : Type 0 where
  pub one_branch : All (λ (m : DocumentMutation). bytes_eq m.branch b.branch ≡ true) b.mutations
  pub named : (is_empty b.branch ≡ false) ⊎ (b.mutations ≡ [])
  pub ahead : (b.mutations ≡ []) ⊎ (checkpoint_of b.branch b.checkpoints ≤ seq)

passed-false :
    (seq : ℕ) (branch : Bytes) (cs : Checkpoints)
    → passed seq (Assoc.lookup branch cs) ≡ false
    → checkpoint_of branch cs ≤ seq
passed-false seq branch cs h = by_entry (Assoc.lookup branch cs) h
  where
    by_entry : (o : Option ℕ) → passed seq o ≡ false → at_least o ≤ seq
    by_entry none h = omega arith
    by_entry (some c) h = ground arith

checkpoint_of-insert :
    (k branch : Bytes) (c : ℕ) (cs : Checkpoints)
    → checkpoint_of k (Assoc.insert branch c cs)
      ≡ (if bytes_eq branch k then c else checkpoint_of k cs)
checkpoint_of-insert k branch c cs =
    ap at_least (lookup-insert branch k c cs) ∙ by_test (bytes_eq branch k)
  where
    by_test :
        (b : Bool)
        → at_least (if b then some c else Assoc.lookup k cs) ≡ (if b then c else checkpoint_of k cs)
    by_test true = refl
    by_test false = refl

-- A fork notes the batch, and never takes a checkpoint back.
forked_lem :
    (t : EventType) (branch k : Bytes) (seq : ℕ) (cs : Checkpoints)
    → (checkpoint_of k cs ≤ checkpoint_of k (forked t branch seq cs))
      × ((checkpoint_of k (forked t branch seq cs) ≡ checkpoint_of k cs)
          ⊎ (checkpoint_of k (forked t branch seq cs) ≡ seq))
forked_lem (other n) branch k seq cs = (omega arith, inl refl)
forked_lem fork branch k seq cs = elim (Bool-cases (passed seq (Assoc.lookup branch cs))) [
  | inl has ↦ rw has (omega arith, inl refl)
  | inr lacks ↦ rw lacks (
      ground (
        arith,
        bytes_eq_iff branch k,
        checkpoint_of-insert k branch seq cs,
        passed-false seq branch cs lacks,
      ))
]

-- The next mutation of a batch is of its branch, or the first one.
same_or_first :
    (seq : ℕ) (branch : Bytes) (b : Batch)
    → Gathered seq b
    → not (is_empty b.branch) && not (bytes_eq branch b.branch) ≡ false
    → (b.branch ≡ branch) ⊎ (b.mutations ≡ [])
same_or_first seq branch b g same = elim g.named [
  | inr empty ↦ inr empty
  | inl is_named ↦ ground (arith, bytes_eq_iff branch b.branch)
]

one_branch-still :
    (branch : Bytes) (b : Batch)
    → All (λ (m : DocumentMutation). bytes_eq m.branch b.branch ≡ true) b.mutations
    → (b.branch ≡ branch) ⊎ (b.mutations ≡ [])
    → All (λ (m : DocumentMutation). bytes_eq m.branch branch ≡ true) b.mutations
one_branch-still branch b all (inl is_same) = rw is_same at all
one_branch-still branch b all (inr empty) = rw empty tt

ahead-still :
    (seq : ℕ) (branch : Bytes) (b : Batch)
    → (b.mutations ≡ []) ⊎ (checkpoint_of b.branch b.checkpoints ≤ seq)
    → (b.branch ≡ branch) ⊎ (b.mutations ≡ [])
    → (b.mutations ≡ []) ⊎ (checkpoint_of branch b.checkpoints ≤ seq)
ahead-still seq branch b h (inl is_same) = rw is_same at h
ahead-still seq branch b h (inr empty) = inl empty

Gathered-add_mutation :
    (seq : ℕ) (m : DocumentMutation) (b : Batch)
    → is_empty m.branch ≡ false
    → Gathered seq b
    → not (is_empty b.branch) && not (bytes_eq m.branch b.branch) ≡ false
    → Gathered seq (add_mutation seq m b false).1
Gathered-add_mutation seq m b is_named g same =
    let still = same_or_first seq m.branch b g same in
    let moved = one_branch-still m.branch b g.one_branch still in
    by_test (passed seq (Assoc.lookup m.branch b.checkpoints)) refl moved
      (ahead-still seq m.branch b g.ahead still)
  where
    by_test :
        (p : Bool)
        → passed seq (Assoc.lookup m.branch b.checkpoints) ≡ p
        → All (λ (m' : DocumentMutation). bytes_eq m'.branch m.branch ≡ true) b.mutations
        → (b.mutations ≡ []) ⊎ (checkpoint_of m.branch b.checkpoints ≤ seq)
        → Gathered seq (
            if p
            then record b { branch = m.branch }
            else record b { branch = m.branch; mutations = b.mutations ++ (m ∷ []) })
    by_test true has moved ahead = record {
      one_branch = moved;
      named = inl is_named;
      ahead = ahead;
    }
    by_test false lacks moved ahead = record {
      one_branch = All-append _ b.mutations (m ∷ []) moved (bytes_eq_refl m.branch, tt);
      named = inl is_named;
      ahead = inr (passed-false seq m.branch b.checkpoints lacks);
    }

add_mutation-checkpoints :
    (seq : ℕ) (m : DocumentMutation) (b : Batch) (two : Bool)
    → b.checkpoints ≡ (add_mutation seq m b two).1.checkpoints
add_mutation-checkpoints seq m b true = refl
add_mutation-checkpoints seq m b false = by_test (passed seq (Assoc.lookup m.branch b.checkpoints))
  where
    by_test :
        (p : Bool)
        → b.checkpoints
          ≡ (if p
              then record b { branch = m.branch }
              else record b { branch = m.branch; mutations = b.mutations ++ (m ∷ []) }).checkpoints
    by_test true = refl
    by_test false = refl

add_mutation-Gathered :
    (seq : ℕ) (m : DocumentMutation) (b : Batch) (two : Bool)
    → is_empty m.branch ≡ false
    → Gathered seq b
    → not (is_empty b.branch) && not (bytes_eq m.branch b.branch) ≡ two
    → Gathered seq (add_mutation seq m b two).1
add_mutation-Gathered seq m b true is_named g same = g
add_mutation-Gathered seq m b false is_named g same = Gathered-add_mutation seq m b is_named g same

add_record-Gathered :
    (seq : ℕ) (rec : Option WalRecord) (b : Batch)
    → Gathered seq b
    → Gathered seq (add_record seq rec b).1
      × ((k : Bytes)
          → checkpoint_of k b.checkpoints ≤ checkpoint_of k (add_record seq rec b).1.checkpoints)
unfolding add_record
add_record-Gathered seq none b g = (g, λ k. omega arith)
add_record-Gathered seq (some (branch_event e)) b g = (
  record {
    one_branch = g.one_branch;
    named = g.named;
    ahead = elim g.ahead [
      | inl none_yet ↦ inl none_yet
      | inr low ↦ inr (omega (arith, forked_lem e.event_type e.branch b.branch seq b.checkpoints))
    ];
  },
  λ k. (forked_lem e.event_type e.branch k seq b.checkpoints).0,
)
add_record-Gathered seq (some no_record) b g = (g, λ k. omega arith)
add_record-Gathered seq (some (mutation m)) b g = elim (Bool-cases (is_empty m.branch)) [
  | inl no_branch ↦ rw no_branch (g, λ k. omega arith)
  | inr is_named ↦
      let two = not (is_empty b.branch) && not (bytes_eq m.branch b.branch) in
      rw is_named (
        add_mutation-Gathered seq m b two is_named g refl,
        λ k. rw (← add_mutation-checkpoints seq m b two) (omega arith),
      )
]

-- What the gathering starts with.
abbrev pub start_of : Checkpoints → Batch
start_of checkpoints = record { branch = []; mutations = []; checkpoints = checkpoints }

pub start_of-Gathered : (seq : ℕ) (checkpoints : Checkpoints) → Gathered seq (start_of checkpoints)
start_of-Gathered seq checkpoints = record { one_branch = tt; named = inr refl; ahead = inl refl }

module _ (codecs : Codecs) (sha256 : Bytes → Bytes) (ctx : Context) (scope : Scope) where
  -- Whatever the records of a batch are, and whether it is refused in the end or not: the mutations
  -- that are gathered from it are all of the one branch that is flushed, and no checkpoint goes
  -- back. (The gathering begins with such mutations, or with none.)
  pub add_records-Gathered :
      (seq : ℕ) (recs : List Bytes) (b : Batch) (k : Bytes)
      → Gathered seq b
      → Gathered seq (add_records codecs sha256 ctx scope seq recs b).1
        × (checkpoint_of k b.checkpoints
            ≤ checkpoint_of k (add_records codecs sha256 ctx scope seq recs b).1.checkpoints)
  unfolding add_records
  add_records-Gathered seq [] b k g = (g, omega arith)
  add_records-Gathered seq (rec ∷ recs) b k g =
      let (g', low) = add_record-Gathered seq (codecs.wal_record.unmarshal rec) b g in
      behind (add_record seq (codecs.wal_record.unmarshal rec) b)
        (λ b'. add_records-Gathered seq recs b' k) g' (low k)
    where
      behind :
          (p : Option Error × Batch)
          → ((b' : Batch)
              → Gathered seq b'
              → Gathered seq (add_records codecs sha256 ctx scope seq recs b').1
                × (checkpoint_of k b'.checkpoints
                    ≤ checkpoint_of k
                        (add_records codecs sha256 ctx scope seq recs b').1.checkpoints))
          → Gathered seq p.1
          → checkpoint_of k b.checkpoints ≤ checkpoint_of k p.1.checkpoints
          → Gathered seq (and_then (add_records codecs sha256 ctx scope seq recs) p).1
            × (checkpoint_of k b.checkpoints
                ≤ checkpoint_of k
                    (and_then (add_records codecs sha256 ctx scope seq recs) p).1.checkpoints)
      behind (some e, b') ih g' low = (g', low)
      behind (none, b') ih g' low = let (g'', up) = ih b' g' in (g'', omega arith)

  -- What is known of a branch whose mutations a batch has brought.
  Committed-checkpoint :
      (branch : Bytes) (ref : SegmentRef) (seq c : ℕ) (first w : World)
      → Committed codecs sha256 ctx scope branch ref seq c first w
      → seq ≤ c
  Committed-checkpoint branch ref seq c first w (inl (old, gen, le, same, u, at_read, was)) =
      omega arith
  Committed-checkpoint branch ref seq c first w (inr (old, g, lt, same, r)) = omega arith

  flush_branch-Forward :
      (seq : ℕ) (branch : Bytes) (ms : List DocumentMutation) (cs after : Checkpoints)
      (w w' : World) (k : Bytes)
      → RoomToWrite w
      → (ms ≡ []) ⊎ (checkpoint_of branch cs ≤ seq)
      → flush_branch codecs sha256 ctx scope branch ms seq cs w ≡ (ok tt, after, w')
      → (checkpoint_of k cs ≤ checkpoint_of k after)
        × ((ms ≡ []) ⊎ (seq ≤ checkpoint_of branch after))
  flush_branch-Forward seq branch [] cs after w w' k room ahead h =
      let same : cs ≡ after = unfold flush_branch in cc in rw same (omega arith, inl refl)
  flush_branch-Forward seq branch (m ∷ ms) cs after w w' k room (inl none_yet) h = cc
  flush_branch-Forward seq branch (m ∷ ms) cs after w w' k room (inr low) h =
      let f = flush_branch-Flushed codecs sha256 ctx scope branch m ms seq cs after w w' room h in
      let high = Committed-checkpoint branch _ seq f.checkpoint f.at_commit f.world f.committed in
      let at_k = checkpoint_of-insert k branch f.checkpoint cs in
      let at_branch = checkpoint_of-insert branch branch f.checkpoint cs in
      rw f.is_noted
        (ground (arith, bytes_eq_iff branch k), inr (ground (arith, bytes_eq_refl branch)))

  flush_batch-Forward :
      (seq : ℕ) (p : Option Error × Batch) (after : Checkpoints) (w w' : World) (k : Bytes)
      → RoomToWrite w
      → Gathered seq p.1
      → flush_batch codecs sha256 ctx scope seq p w ≡ (ok tt, after, w')
      → (checkpoint_of k p.1.checkpoints ≤ checkpoint_of k after)
        × ((p.1.mutations ≡ []) ⊎ (seq ≤ checkpoint_of p.1.branch after))
  flush_batch-Forward seq (some e, b) after w w' k room g h = cc
  flush_batch-Forward seq (none, b) after w w' k room g h =
      flush_branch-Forward seq b.branch b.mutations b.checkpoints after w w' k room g.ahead h

  -- When a batch of the log is processed with no error, then no branch's checkpoint has gone back,
  -- and if there were mutations to flush, the checkpoint of their branch is not behind the batch.
  -- The world has a well-formed store whose counter stays an int64.
  pub process_records-checkpoint :
      (seq : ℕ) (recs : List Bytes) (before after : Checkpoints) (w w' : World) (k : Bytes)
      → RoomToWrite w
      → process_records codecs sha256 ctx scope seq recs before w ≡ (ok tt, after, w')
      → (checkpoint_of k before ≤ checkpoint_of k after)
        × (((add_records codecs sha256 ctx scope seq recs (start_of before)).1.mutations ≡ [])
            ⊎ (seq
                ≤ checkpoint_of
                    (add_records codecs sha256 ctx scope seq recs (start_of before)).1.branch
                    after))
  unfolding process_records
  process_records-checkpoint seq recs before after w w' k room h =
      let (g, low) =
        add_records-Gathered seq recs (start_of before) k (start_of-Gathered seq before) in
      let (up, done) =
        flush_batch-Forward seq (add_records codecs sha256 ctx scope seq recs (start_of before))
          after w w' k room g h in
      (omega arith, done)
