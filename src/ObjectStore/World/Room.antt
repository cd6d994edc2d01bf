-- ===== src/ObjectStore/World/Room.antt =====
-- Worlds in which the store is well formed and its counter stays an int64, whatever still happens.
use cloudy_neigh.Prelude.{
  ℕ, ◌+◌, ◌^◌, ◌≤◌, ◌<◌, ◌≡◌, refl, sym, List, [], ◌∷◌, length, arith, Result, ok, err, Bytes,
  Error, Result-cases, inl, inr, ap, ◌∙◌,
}
use cloudy_neigh.ObjectStore.Defs.{Condition, Context}
use cloudy_neigh.ObjectStore.Mem
use cloudy_neigh.ObjectStore.Mem.{MemStore}
use cloudy_neigh.ObjectStore.Mem.Validity.{IsValid, put_lem, Wrote-IsValid}
use cloudy_neigh.ObjectStore.Mem.Cas.{
  Write, run_writes, run_writes-IsValid, apply_write-Stepped, Stepped-gen_seq, apply_write,
}
use cloudy_neigh.ObjectStore.World
use cloudy_neigh.ObjectStore.World.Inversion.{answer_call-ok}
use cloudy_neigh.ObjectStore.World.{
  World, Event, Answer, answered, failed, lost, next_event, answer_call, reads, state_of, value_of,
  call,
}

-- The writes that the events of a schedule bring at most: those of others, and one of the client.
abbrev pub weight : List Event → ℕ
weight [] = 0
weight (e ∷ es) = length e.others + 1 + weight es

abbrev pub Room : World → Type 0
Room w = IsValid w.store × (w.store.gen_seq + weight w.schedule + 1 < 2 ^ 63)

run_writes-gen_seq :
    (ws : List Write) (m : MemStore)
    → m.gen_seq + length ws < 2 ^ 63
    → (m.gen_seq ≤ (run_writes ws m).gen_seq) × ((run_writes ws m).gen_seq ≤ m.gen_seq + length ws)
unfolding run_writes
run_writes-gen_seq [] m h = omega arith
run_writes-gen_seq (w ∷ ws) m h =
    let step = Stepped-gen_seq (apply_write-Stepped m w) (omega arith) in
    let rest = run_writes-gen_seq ws (apply_write m w) (omega (arith, step)) in
    omega (arith, step, rest)

-- The state at which a call of the client is made.
abbrev pub state_at_call : World → MemStore
state_at_call w = run_writes (next_event w.schedule).0.others w.store

-- What is left at a call, with no place of its own when no event is left.
pub state_at_call-Room :
    (w : World)
    → Room w
    → IsValid (state_at_call w)
      × ((state_at_call w).gen_seq + weight (next_event w.schedule).1 + 1 < 2 ^ 63)
unfolding run_writes
state_at_call-Room w (v, h) = cases w.schedule w.store v h
  where
    cases :
        (es : List Event) (m : MemStore)
        → IsValid m
        → m.gen_seq + weight es + 1 < 2 ^ 63
        → IsValid (run_writes (next_event es).0.others m)
          × ((run_writes (next_event es).0.others m).gen_seq + weight (next_event es).1 + 1
              < 2 ^ 63)
    cases [] m v h = (v, h)
    cases (e ∷ es) m v h = (
      run_writes-IsValid e.others m (omega arith) v,
      omega (arith, run_writes-gen_seq e.others m (omega arith)),
    )

module _ {A : Type 0} (op : MemStore → Result A) where
  reads-store : (m : MemStore) → state_of m (reads op m) ≡ m
  reads-store m = by_result (op m)
    where
      by_result : (r : Result A) → state_of m (elim r [ ok a ↦ ok (a, m) | err e ↦ err e ]) ≡ m
      by_result (ok a) = refl
      by_result (err e) = refl

  -- A call that reads leaves the state that it found.
  pub call-reads :
      (w : World)
      → (call (reads op) w).1
        ≡ record { store = state_at_call w; schedule = (next_event w.schedule).1 }
  unfolding call
  call-reads w = cases (next_event w.schedule).0.answer
    where
      cases :
          (x : Answer)
          → (answer_call x (reads op) (state_at_call w) (next_event w.schedule).1).1
            ≡ record { store = state_at_call w; schedule = (next_event w.schedule).1 }
      cases answered =
          ap (λ m. record { store = m; schedule = (next_event w.schedule).1 })
            (reads-store (state_at_call w))
      cases (failed e) = refl
      cases (lost e) =
          ap (λ m. record { store = m; schedule = (next_event w.schedule).1 })
            (reads-store (state_at_call w))

  pub call-reads-Room : (w : World) → Room w → Room (call (reads op) w).1
  call-reads-Room w r = rw (call-reads w) (state_at_call-Room w r)

module _ (ctx : Context) (key content : Bytes) (cond : Condition) where
  -- A write that returned a generation was made on the state of the call.
  pub put_call-ok :
      (w w' : World) (g : Bytes)
      → World.put ctx key content cond w ≡ (ok g, w')
      → Mem.put ctx key (ok content) cond (state_at_call w) ≡ ok (g, w'.store)
  unfolding World.put call
  put_call-ok w w' g h =
      answer_call-ok (next_event w.schedule).0.answer (Mem.put ctx key (ok content) cond)
        (state_at_call w) (next_event w.schedule).1 g w' h

  put_state-IsValid :
      (m : MemStore)
      → IsValid m
      → m.gen_seq + 1 < 2 ^ 63
      → IsValid (state_of m (Mem.put ctx key (ok content) cond m))
        × ((state_of m (Mem.put ctx key (ok content) cond m)).gen_seq ≤ m.gen_seq + 1)
  put_state-IsValid m v h = elim (Result-cases (Mem.put ctx key (ok content) cond m)) [
    | inl ((g, m'), e) ↦
        let w = put_lem ctx key cond m content g m' e in
        rw e (Wrote-IsValid w v h, omega (arith, w.seq))
    | inr (x, e) ↦ rw e (v, omega arith)
  ]

  -- A write that failed, or whose answer got lost, leaves room.
  pub put_failed-Room :
      (w w' : World) (x : Error) → Room w → World.put ctx key content cond w ≡ (err x, w') → Room w'
  unfolding World.put call run_writes
  put_failed-Room w w' x (v, h) e = by_schedule w.schedule w.store v h e
    where
      op : MemStore → Result (Bytes × MemStore)
      op = Mem.put ctx key (ok content) cond

      answered_Room :
          (m : MemStore) (es : List Event)
          → IsValid m
          → m.gen_seq + weight es + 1 < 2 ^ 63
          → answer_call answered op m es ≡ (err x, w')
          → Room w'
      answered_Room m es v h e = elim (Result-cases (op m)) [
        | inl (p, o) ↦
            let no : answer_call answered (λ _. ok p) m es ≡ (err x, w') = rw o at e in cc
        | inr (y, o) ↦
            let kept : answer_call {A = Bytes} answered (λ _. err y) m es ≡ (err x, w') =
              rw o at e in
            let same : record { store = m; schedule = es } ≡ w' = cc in rw (← same) (v, h)
      ]

      by_answer :
          (a : Answer) (m : MemStore) (es : List Event)
          → IsValid m
          → m.gen_seq + weight es + 2 < 2 ^ 63
          → answer_call a op m es ≡ (err x, w')
          → Room w'
      by_answer answered m es v h e = answered_Room m es v (omega arith) e
      by_answer (failed y) m es v h e =
          let same : record { store = m; schedule = es } ≡ w' = cc in rw (← same) (v, omega arith)
      by_answer (lost y) m es v h e =
          let same : record { store = state_of m (op m); schedule = es } ≡ w' = cc in
          let (v', k) = put_state-IsValid m v (omega arith) in rw (← same) (v', omega arith)

      by_schedule :
          (es : List Event) (m : MemStore)
          → IsValid m
          → m.gen_seq + weight es + 1 < 2 ^ 63
          → answer_call
              (next_event es).0.answer
              op
              (run_writes (next_event es).0.others m)
              (next_event es).1
            ≡ (err x, w')
          → Room w'
      by_schedule [] m v h e = answered_Room m [] v h e
      by_schedule (y ∷ es) m v h e =
          by_answer y.answer (run_writes y.others m) es
            (run_writes-IsValid y.others m (omega arith) v)
            (omega (arith, run_writes-gen_seq y.others m (omega arith))) e

-- Room for one write more.
abbrev pub RoomToWrite : World → Type 0
RoomToWrite w = IsValid w.store × (w.store.gen_seq + weight w.schedule + 2 < 2 ^ 63)

pub RoomToWrite-Room : (w : World) → RoomToWrite w → Room w
RoomToWrite-Room w (v, h) = (v, omega arith)

state_at_call-RoomToWrite :
    (es : List Event) (m : MemStore)
    → IsValid m
    → m.gen_seq + weight es + 2 < 2 ^ 63
    → IsValid (run_writes (next_event es).0.others m)
      × ((run_writes (next_event es).0.others m).gen_seq + weight (next_event es).1 + 2 < 2 ^ 63)
unfolding run_writes
state_at_call-RoomToWrite [] m v h = (v, h)
state_at_call-RoomToWrite (e ∷ es) m v h = (
  run_writes-IsValid e.others m (omega arith) v,
  omega (arith, run_writes-gen_seq e.others m (omega arith)),
)

call-schedule :
    {A : Type 0} (op : MemStore → Result (A × MemStore)) (w : World)
    → (call op w).1.schedule ≡ (next_event w.schedule).1
unfolding call
call-schedule op w = cases (next_event w.schedule).0.answer
  where
    cases :
        (x : Answer)
        → (answer_call x op (state_at_call w) (next_event w.schedule).1).1.schedule
          ≡ (next_event w.schedule).1
    cases answered = refl
    cases (failed e) = refl
    cases (lost e) = refl

pub put-schedule :
    (ctx : Context) (key content : Bytes) (cond : Condition) (w w' : World) (r : Result Bytes)
    → World.put ctx key content cond w ≡ (r, w')
    → w'.schedule ≡ (next_event w.schedule).1
unfolding World.put
put-schedule ctx key content cond w w' r h =
    ap (λ (p : Result Bytes × World). p.1.schedule) (sym h)
    ∙ call-schedule (Mem.put ctx key (ok content) cond) w

-- A write, whatever comes of it, leaves room where there was room for one more.
pub put-Room :
    (ctx : Context) (key content : Bytes) (cond : Condition) (w w' : World) (r : Result Bytes)
    → RoomToWrite w
    → World.put ctx key content cond w ≡ (r, w')
    → Room w'
unfolding World.put
put-Room ctx key content cond w w' (err x) room h =
    put_failed-Room ctx key content cond w w' x (RoomToWrite-Room w room) h
put-Room ctx key content cond w w' (ok g) (v, b) h =
    let m = state_at_call w in
    let (v1, b1) = state_at_call-RoomToWrite w.schedule w.store v b in
    let wrote =
      put_lem ctx key cond m content g w'.store (put_call-ok ctx key content cond w w' g h) in
    let left = put-schedule ctx key content cond w w' (ok g) h in
    (Wrote-IsValid wrote v1 (omega arith), omega (arith, wrote.seq, ap weight left))
