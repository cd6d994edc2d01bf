-- ===== src/ObjectStore/Mem/Cas.antt =====
-- Writes of several clients in some order, and what a conditional write then guarantees.
use cloudy_neigh.Prelude.{
  ◌+◌, ◌^◌, ◌≤◌, ◌<◌, ◌≡◌, refl, sym, ◌∙◌, ap, false, Option, none, some, Bytes, List, [], ◌∷◌,
  length, arith, Result, ok, err, bytes_eq_iff, is_empty, inl, inr, Result-cases,
}
use cloudy_neigh.Prelude.Assoc
use cloudy_neigh.ObjectStore.Defs.{Object, Condition, Context, if_generation}
use cloudy_neigh.ObjectStore.Mem.{MemStore, MemEntry, get, put, delete, refuses}
use cloudy_neigh.ObjectStore.Mem.Validity.{
  IsValid, Wrote, put_lem, found_after, found_after_delete, Wrote-IsValid, Taken, Wrote-ne-Taken,
  IsValid-Taken, Wrote-Taken, Taken-nonempty, delete-IsValid, delete_lem,
}

-- A call of a client that may change the store.
pub data Write : Type 0 where
  put_write : Context → Bytes → Bytes → Condition → Write
  delete_write : Context → Bytes → Write

abbrev after_put : MemStore → Result (Bytes × MemStore) → MemStore
after_put m (ok (g, m')) = m'
after_put m (err e) = m

abbrev after_delete : MemStore → Result MemStore → MemStore
after_delete m (ok m') = m'
after_delete m (err e) = m

-- The state behind one call; a call that fails leaves it alone.
pub apply_write : MemStore → Write → MemStore
apply_write m (put_write ctx key content cond) = after_put m (put ctx key (ok content) cond m)
apply_write m (delete_write ctx key) = after_delete m (delete ctx key m)

unfoldable pub run_writes : List Write → MemStore → MemStore
unfolding apply_write
run_writes [] m = m
run_writes (w ∷ ws) m = run_writes ws (apply_write m w)

-- A step of the store that a call has made, or none.
pub data Stepped (m m' : MemStore) : Type 0 where
  stayed : m' ≡ m → Stepped m m'
  wrote :
      (key content : Bytes) (cond : Condition) (g : Bytes)
      → Wrote key content cond m g m'
      → Stepped m m'
  deleted : (ctx : Context) (key : Bytes) → delete ctx key m ≡ ok m' → Stepped m m'

pub apply_write-Stepped : (m : MemStore) (w : Write) → Stepped m (apply_write m w)
unfolding apply_write
apply_write-Stepped m (put_write ctx key content cond) =
    elim (Result-cases (put ctx key (ok content) cond m)) [
      | inl ((g, m'), e) ↦ rw e (wrote key content cond g (put_lem ctx key cond m content g m' e))
      | inr (x, e) ↦ rw e (stayed refl)
    ]
apply_write-Stepped m (delete_write ctx key) = elim (Result-cases (delete ctx key m)) [
  | inl (m', e) ↦ rw e (deleted ctx key e)
  | inr (x, e) ↦ rw e (stayed refl)
]

-- A step raises the counter by one at most.
pub Stepped-gen_seq :
    {m m' : MemStore}
    → Stepped m m'
    → m.gen_seq + 1 < 2 ^ 63
    → (m.gen_seq ≤ m'.gen_seq) × (m'.gen_seq ≤ m.gen_seq + 1)
Stepped-gen_seq (stayed e) h = omega (arith, ap (λ (s : MemStore). s.gen_seq) e)
Stepped-gen_seq (wrote key content cond g w) h = omega (arith, w.seq)
Stepped-gen_seq {m} {m'} (deleted ctx key e) h =
    omega (arith, ap (λ (s : MemStore). s.gen_seq) (delete_lem ctx key m m' e))

-- Every call keeps the state well formed.
pub Stepped-IsValid :
    {m m' : MemStore} → Stepped m m' → m.gen_seq + 1 < 2 ^ 63 → IsValid m → IsValid m'
Stepped-IsValid (stayed e) h v = rw e v
Stepped-IsValid (wrote key content cond g w) h v = Wrote-IsValid w v h
Stepped-IsValid {m} {m'} (deleted ctx key e) h v = delete-IsValid ctx key m m' e v

-- Whatever holds the generation `g` is the key's object with that content.
abbrev pub Pins : Bytes → Bytes → Bytes → MemStore → Type 0
Pins key content g m =
    (k : Bytes) (e : MemEntry)
    → Assoc.lookup k m.objects ≡ some e
    → e.generation ≡ g
    → (k ≡ key) × (e.content ≡ content)

pub Stepped-Taken :
    {m m' : MemStore} (g : Bytes) → Stepped m m' → m.gen_seq + 1 < 2 ^ 63 → Taken g m → Taken g m'
Stepped-Taken g st h (s, n, hi, gen) = (s, n, omega (arith, Stepped-gen_seq st h), gen)

module _ (key content g : Bytes) where
  -- No call makes a generation anew that was given to an object before.
  Stepped-Pins :
      {m m' : MemStore}
      → Stepped m m'
      → m.gen_seq + 1 < 2 ^ 63
      → Taken g m
      → Pins key content g m
      → Pins key content g m'
  Stepped-Pins (stayed e) h t p k x found same = p k x (rw e at found) same
  Stepped-Pins (wrote key' content' cond g' w) h t p k x found same =
      elim (found_after w k x found) [
        | inl (_, e_new) ↦
            absurd (Wrote-ne-Taken w h g t (ap (λ (y : MemEntry). y.generation) (sym e_new) ∙ same))
        | inr old ↦ p k x old same
      ]
  Stepped-Pins {m} {m'} (deleted ctx key' e) h t p k x found same =
      p k x (found_after_delete ctx key' m m' e k x found) same

  run_writes-Pins :
      (ws : List Write) (m : MemStore)
      → m.gen_seq + length ws < 2 ^ 63
      → Taken g m
      → Pins key content g m
      → Pins key content g (run_writes ws m)
  unfolding run_writes
  run_writes-Pins [] m h t p = p
  run_writes-Pins (w ∷ ws) m h t p =
      let st = apply_write-Stepped m w in
      let small : m.gen_seq + 1 < 2 ^ 63 = omega arith in
      run_writes-Pins ws (apply_write m w) (omega (arith, Stepped-gen_seq st small))
        (Stepped-Taken g st small t) (Stepped-Pins st small t p)

-- A successful `Get` returns the key's object.
pub get_found :
    (ctx : Context) (key : Bytes) (m : MemStore) (content : Bytes) (o : Object)
    → get ctx key m ≡ ok (content, o)
    → (e : MemEntry) × (Assoc.lookup key m.objects ≡ some e)
      × (content ≡ e.content)
      × (e.generation ≡ o.generation)
unfolding get
get_found ctx key m content o h = (
  record { content = content; generation = o.generation },
  ground arith,
  ground arith,
  ground arith,
)

-- Any calls keep a well-formed state well formed, while the counter stays an int64.
pub run_writes-IsValid :
    (ws : List Write) (m : MemStore)
    → m.gen_seq + length ws < 2 ^ 63
    → IsValid m
    → IsValid (run_writes ws m)
unfolding run_writes
run_writes-IsValid [] m h v = v
run_writes-IsValid (w ∷ ws) m h v =
    let st = apply_write-Stepped m w in
    let small : m.gen_seq + 1 < 2 ^ 63 = omega arith in
    run_writes-IsValid ws (apply_write m w) (omega (arith, Stepped-gen_seq st small))
      (Stepped-IsValid st small v)

-- A write that asks for a generation finds an object with it.
met_generation :
    (g : Bytes) (o : Option MemEntry)
    → is_empty g ≡ false
    → refuses (if_generation g) o ≡ false
    → (e : MemEntry) × (o ≡ some e) × (e.generation ≡ g)
unfolding refuses
met_generation g none ne h = cc
met_generation g (some e) ne h = (e, refl, ground (arith, bytes_eq_iff e.generation g))

Wrote-Pins :
    {m m' : MemStore} {key content g : Bytes} {cond : Condition}
    → Wrote key content cond m g m'
    → m.gen_seq + 1 < 2 ^ 63
    → IsValid m
    → Pins key content g m'
Wrote-Pins {m} {m'} {key} {content} {g} w h v k x found same = elim (found_after w k x found) [
  | inl (is_key, x_new) ↦ (is_key, ap (λ (y : MemEntry). y.content) x_new)
  | inr old ↦ absurd (Wrote-ne-Taken w h x.generation (IsValid-Taken v k x old) (sym same))
]

-- A client that has written an object and finds the generation of its write again, after any calls
-- of other clients, finds the bytes that it wrote. (The state before was well formed, and the
-- counter stays an int64.)
pub get-put_same_generation :
    (ctx ctx' : Context) (key content g : Bytes) (cond : Condition) (m m' : MemStore)
    (ws : List Write) (found : Bytes) (o : Object)
    → IsValid m
    → m.gen_seq + 1 + length ws < 2 ^ 63
    → put ctx key (ok content) cond m ≡ ok (g, m')
    → get ctx' key (run_writes ws m') ≡ ok (found, o)
    → o.generation ≡ g
    → found ≡ content
unfolding get
get-put_same_generation ctx ctx' key content g cond m m' ws found o v h e r same =
    let w = put_lem ctx key cond m content g m' e in
    let small : m.gen_seq + 1 < 2 ^ 63 = omega arith in
    let pins =
      run_writes-Pins key content g ws m' (omega (arith, w.seq)) (Wrote-Taken w small)
        (Wrote-Pins w small v) in
    let (x, at, c, gen) = get_found ctx' key (run_writes ws m') found o r in
    c ∙ (pins key x at (gen ∙ same)).1

-- What a key holds when a client reads it pins the generation that the client gets.
found-Pins :
    {m : MemStore}
    → IsValid m
    → (key : Bytes) (e : MemEntry) → Assoc.lookup key m.objects ≡ some e
    → Pins key e.content e.generation m
found-Pins {m} v key e at k x found same =
    let is_key : k ≡ key = v.distinct k key x e found at same in
    (
      is_key,
      ap (λ (y : MemEntry). y.content)
          (some-eq (sym found ∙ ap (λ j. Assoc.lookup j m.objects) is_key ∙ at)),
    )
  where
    some-eq : {a b : MemEntry} → some a ≡ some b → a ≡ b
    some-eq h = cc

-- No lost update: when a client reads an object, and later writes it on the condition that its
-- generation is still the one read, and the write succeeds, then the object that the write replaces
-- has the bytes that the client read, whatever calls other clients made in between. (The state that
-- was read is well formed, and the counter stays an int64.)
pub put-get_no_lost_update :
    (ctx ctx' : Context) (key read content g : Bytes) (o : Object) (m m' : MemStore)
    (ws : List Write)
    → IsValid m
    → m.gen_seq + length ws < 2 ^ 63
    → get ctx key m ≡ ok (read, o)
    → put ctx' key (ok content) (if_generation o.generation) (run_writes ws m) ≡ ok (g, m')
    → (e : MemEntry) × (Assoc.lookup key (run_writes ws m).objects ≡ some e) × (e.content ≡ read)
put-get_no_lost_update ctx ctx' key read content g o m m' ws v h r p =
    let (x, at, c, gen) = get_found ctx key m read o r in
    let t = IsValid-Taken v key x at in
    let pins = run_writes-Pins key x.content x.generation ws m h t (found-Pins v key x at) in
    let w = put_lem ctx' key (if_generation o.generation) (run_writes ws m) content g m' p in
    let (e, there, same) =
      met_generation o.generation _ (rw gen at (Taken-nonempty m x.generation t)) w.met in
    (e, there, (pins key e there (same ∙ sym gen)).1 ∙ sym c)
