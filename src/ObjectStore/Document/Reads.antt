-- ===== src/ObjectStore/Document/Reads.antt =====
-- What a client knows behind the reading of a document.
use cloudy_neigh.Prelude.{
  ◌≡◌, refl, sym, true, undecodable, ap, ◌∙◌, Option, none, some, [], Bytes, is_empty, Error,
  Result, ok, err, is_not_found, arith, ◌⊎◌, inl, inr, Bool-cases, if◌then◌else◌,
}
use cloudy_neigh.Prelude.Assoc
use cloudy_neigh.ObjectStore.Defs.{Context, Object}
use cloudy_neigh.ObjectStore.Mem
use cloudy_neigh.ObjectStore.Mem.{MemStore, MemEntry, refuses, is_some}
use cloudy_neigh.ObjectStore.World
use cloudy_neigh.ObjectStore.World.{
  World, Io, pure, raise, lift, attempt, continue, Event, reads, next_event, call, ◌>>=◌,
}
use cloudy_neigh.ObjectStore.World.Inversion.{bind_ok, answer_call-ok}
use cloudy_neigh.ObjectStore.World.Room.{Room, call-reads, call-reads-Room, state_at_call}
use cloudy_neigh.ObjectStore.Document.{Codec, decoded, read_document, read_or, read_or_error}

reads-ok :
    {A : Type 0} (op : MemStore → Result A) (m s : MemStore) (a : A)
    → reads op m ≡ ok (a, s)
    → op m ≡ ok a
reads-ok op m s a h = ground arith

module _ {A : Type 0} (codec : Codec A) (key : Bytes) (ctx : Context) where
  -- The store holds the document.
  abbrev pub Holds : A → MemStore → Type 0
  Holds a m =
      (e : MemEntry) × (Assoc.lookup key m.objects ≡ some e) × (codec.unmarshal e.content ≡ some a)

  -- The store has no object under the key.
  abbrev pub Lacks : MemStore → Type 0
  Lacks m = Assoc.lookup key m.objects ≡ none

  -- What was read is the document of the object that the store holds still.
  abbrev pub Found : A → Bytes → World → Type 0
  Found a gen w =
      (content : Bytes) × (o : Object) × (Mem.get ctx key w.store ≡ ok (content, o))
      × (codec.unmarshal content ≡ some a)
      × (gen ≡ o.generation)

  -- The store answered that it has no such object.
  abbrev pub Missed : World → World → Type 0
  Missed w w1 = (x : Error) × (World.get ctx key w ≡ (err x, w1)) × (is_not_found x ≡ true)

  -- A read made in the world `w` has found the document, or the answer was that nothing is there, and
  -- the document is `empty` and the generation is, too.
  abbrev pub WasRead : A → A → Bytes → World → World → Type 0
  WasRead empty a gen w w1 = ((a ≡ empty) × (gen ≡ []) × Missed w w1) ⊎ Found a gen w1

  get_call-ok :
      (w w1 : World) (r : Bytes × Object)
      → World.get ctx key w ≡ (ok r, w1)
      → Room w
      → Room w1 × (Mem.get ctx key w1.store ≡ ok r)
  unfolding World.get call
  get_call-ok w w1 r h room =
      let op = reads (Mem.get ctx key) in
      let behind = call-reads (Mem.get ctx key) w in
      let at_call : op (state_at_call w) ≡ ok (r, w1.store) =
        answer_call-ok (next_event w.schedule).0.answer op (state_at_call w)
          (next_event w.schedule).1 r w1 h in
      let same : w1.store ≡ state_at_call w =
        ap (λ (p : Result (Bytes × Object) × World). p.1.store) (sym h)
        ∙ ap (λ (v : World). v.store) behind in
      (
        rw (← ap (λ (p : Result (Bytes × Object) × World). p.1) h)
            (call-reads-Room (Mem.get ctx key) w room),
        rw same (reads-ok (Mem.get ctx key) (state_at_call w) w1.store r at_call),
      )

  pub read_document-Found :
      (a : A) (gen : Bytes) (w w1 : World)
      → read_document codec key ctx w ≡ (ok (a, gen), w1)
      → Room w
      → Room w1 × Found a gen w1
  unfolding read_document
  read_document-Found a gen w w1 h room =
      let (r, w2, got, rest) =
        bind_ok (World.get ctx key)
          (λ r. lift (decoded codec key ctx r.1.generation (codec.unmarshal r.0))) w (a, gen) w1
          h in
      let same : w2 ≡ w1 = ap (λ (p : Result (A × Bytes) × World). p.1) rest in
      let (room2, at) = get_call-ok w w2 r got room in
      let (read, is_gen) =
        decoded-ok r.1.generation (codec.unmarshal r.0)
          (ap (λ (p : Result (A × Bytes) × World). p.0) rest) in
      (rw (← same) room2, (r.0, r.1, rw (← same) at, read, is_gen))
    where
      decoded-ok :
          (g : Bytes) (x : Option A)
          → decoded codec key ctx g x ≡ ok (a, gen)
          → (x ≡ some a) × (gen ≡ g)
      decoded-ok g none e = cc
      decoded-ok g (some b) e = (cc, cc)

  read_document-world : (w : World) → (read_document codec key ctx w).1 ≡ (World.get ctx key w).1
  unfolding read_document attempt
  read_document-world w = by_result (World.get ctx key w)
    where
      by_result :
          (p : Result (Bytes × Object) × World)
          → (continue
              (λ r. lift (decoded codec key ctx r.1.generation (codec.unmarshal r.0)))
              raise
              p.0
              p.1).1
            ≡ p.1
      by_result (ok r, w') = refl
      by_result (err x, w') = refl

  read_document-Room : (w : World) → Room w → Room (read_document codec key ctx w).1
  unfolding read_document attempt
  read_document-Room w room = by_result (World.get ctx key w) (get-Room w room)
    where
      by_result :
          (p : Result (Bytes × Object) × World)
          → Room p.1
          → Room
              (continue
                (λ r. lift (decoded codec key ctx r.1.generation (codec.unmarshal r.0)))
                raise
                p.0
                p.1).1
      by_result (ok r, w') h = h
      by_result (err x, w') h = h

      get-Room : (v : World) → Room v → Room (World.get ctx key v).1
      get-Room v r = unfold World.get in call-reads-Room (Mem.get ctx key) v r

  missed :
      (x : Error) (w w1 : World)
      → read_document codec key ctx w ≡ (err x, w1)
      → is_not_found x ≡ true
      → World.get ctx key w ≡ (err x, w1)
  unfolding read_document attempt
  missed x w w1 h hit = by_result (World.get ctx key w) h
    where
      by_document :
          (g : Bytes) (o : Option A) (v : World)
          → ◌≡◌ {A = Result (A × Bytes) × World} (decoded codec key ctx g o, v) (err x, w1)
          → Result.ok g ≡ err x
      by_document g none v k = let same : undecodable ≡ x = cc in cc (ap is_not_found same, hit)
      by_document g (some a) v k = cc

      by_result :
          (p : Result (Bytes × Object) × World)
          → continue
              (λ r. lift (decoded codec key ctx r.1.generation (codec.unmarshal r.0)))
              raise
              p.0
              p.1
            ≡ (err x, w1)
          → p ≡ (err x, w1)
      by_result (ok r, v) k = let never = by_document r.1.generation (codec.unmarshal r.0) v k in cc
      by_result (err y, v) k = cc

  -- What both ways to read have in common.
  module _ (empty : A) (missing : Error → Io (A × Bytes))
      (on_missing : (x : Error) (a : A) (gen : Bytes) (w w1 : World)
        → missing x w ≡ (ok (a, gen), w1)
        → (w ≡ w1) × (a ≡ empty) × (gen ≡ []) × (is_not_found x ≡ true)) where
    read-WasRead :
        (a : A) (gen : Bytes) (w w1 : World)
        → attempt (read_document codec key ctx) pure missing w ≡ (ok (a, gen), w1)
        → Room w
        → Room w1 × WasRead empty a gen w w1 × (w1 ≡ (World.get ctx key w).1)
    unfolding attempt
    read-WasRead a gen w w1 h room = by_result (read_document codec key ctx w) refl h
      where
        behind :
            (v : World) {r : Result (A × Bytes)}
            → read_document codec key ctx w ≡ (r, v)
            → v ≡ w1
            → w1 ≡ (World.get ctx key w).1
        behind v e same =
            sym same ∙ ap (λ (p : Result (A × Bytes) × World). p.1) (sym e) ∙ read_document-world w

        by_result :
            (p : Result (A × Bytes) × World)
            → read_document codec key ctx w ≡ p
            → continue pure missing p.0 p.1 ≡ (ok (a, gen), w1)
            → Room w1 × WasRead empty a gen w w1 × (w1 ≡ (World.get ctx key w).1)
        by_result (ok b, v) e k =
            let (room1, found) = read_document-Found a gen w w1 (e ∙ k) room in
            (room1, inr found, behind v e (ap (λ (p : Result (A × Bytes) × World). p.1) k))
        by_result (err x, v) e k =
            let (same, is_empty, no_gen, hit) = on_missing x a gen v w1 k in
            (
              rw (← same) (rw e at (read_document-Room w room)),
              inl (is_empty, no_gen, (x, missed x w w1 (e ∙ ap (λ u. (err x, u)) same) hit, hit)),
              behind v e same,
            )

  pub read_or-WasRead :
      (empty a : A) (gen : Bytes) (w w1 : World)
      → read_or codec key ctx empty w ≡ (ok (a, gen), w1)
      → Room w
      → Room w1 × WasRead empty a gen w w1 × (w1 ≡ (World.get ctx key w).1)
  unfolding read_or
  read_or-WasRead empty =
      read-WasRead empty (λ e. if is_not_found e then pure {A = A × Bytes} (empty, []) else raise e)
        on_missing
    where
      on_missing :
          (x : Error) (a : A) (gen : Bytes) (w w1 : World)
          → (if is_not_found x then pure {A = A × Bytes} (empty, []) else raise x) w
            ≡ (ok (a, gen), w1)
          → (w ≡ w1) × (a ≡ empty) × (gen ≡ []) × (is_not_found x ≡ true)
      on_missing x a gen w w1 h = elim (Bool-cases (is_not_found x)) [
        | inl hit ↦
            let k : pure {A = A × Bytes} (empty, []) w ≡ (ok (a, gen), w1) = rw hit at h in
            (cc, cc, cc, hit)
        | inr miss ↦
            let k : World.raise {A = A × Bytes} x w ≡ (ok (a, gen), w1) = rw miss at h in cc
      ]

  pub read_or_error-WasRead :
      (empty : A) (problem : Error) (a : A) (gen : Bytes) (w w1 : World)
      → read_or_error codec key ctx problem w ≡ (ok (a, gen), w1)
      → Room w
      → Room w1 × WasRead empty a gen w w1 × (w1 ≡ (World.get ctx key w).1)
  unfolding read_or_error
  read_or_error-WasRead empty problem =
      read-WasRead empty (λ e. if is_not_found e then raise {A = A × Bytes} problem else raise e)
        on_missing
    where
      on_missing :
          (x : Error) (a : A) (gen : Bytes) (w w1 : World)
          → (if is_not_found x then raise {A = A × Bytes} problem else raise x) w
            ≡ (ok (a, gen), w1)
          → (w ≡ w1) × (a ≡ empty) × (gen ≡ []) × (is_not_found x ≡ true)
      on_missing x a gen w w1 h = elim (Bool-cases (is_not_found x)) [
        | inl hit ↦
            let k : World.raise {A = A × Bytes} problem w ≡ (ok (a, gen), w1) = rw hit at h in cc
        | inr miss ↦
            let k : World.raise {A = A × Bytes} x w ≡ (ok (a, gen), w1) = rw miss at h in cc
      ]
