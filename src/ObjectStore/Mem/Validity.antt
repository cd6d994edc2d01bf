-- ===== src/ObjectStore/Mem/Validity.antt =====
-- What holds of every state that the store in memory reaches: one entry for a key, and each entry's
-- generation is numbered by a write that has happened.
use cloudy_neigh.Prelude.{
  ℕ, ◌+◌, ◌%◌, ◌^◌, ◌≤◌, ◌<◌, ◌≡◌, sym, ◌∙◌, ◌≢◌, false, some, Bytes, length, arith, ok, bytes_eq,
  bytes_eq_iff, is_empty, false, inl, inr, ◌⊎◌, if◌then◌else◌, ap,
}
use cloudy_neigh.Prelude.Assoc
use cloudy_neigh.Prelude.Assoc.{Assoc, keys, IsUnique}
use cloudy_neigh.ObjectStore.Defs.{Condition, Context}
use cloudy_neigh.ObjectStore.Generation.{local_generation}
use cloudy_neigh.ObjectStore.Generation.Format.{
  local_generation-injective, local_generation-nonempty,
}
use cloudy_neigh.ObjectStore.Mem.{MemStore, MemEntry, put, delete, new_mem_store, refuses}

-- The entry was written by the write of a number up to `n`.
abbrev pub IsNumbered : ℕ → MemEntry → Type 0
IsNumbered n e =
    (s : ℕ) × (1 ≤ s) × (s ≤ n) × (e.generation ≡ local_generation s (length e.content))

-- The generation was made by a write that has happened.
abbrev pub Taken : Bytes → MemStore → Type 0
Taken g m = (s : ℕ) × (n : ℕ) × (s ≤ m.gen_seq) × (g ≡ local_generation s n)

pub record IsValid (m : MemStore) : Type 0 where
  pub unique : IsUnique (keys m.objects)
  pub numbered :
      (k : Bytes) (e : MemEntry) → Assoc.lookup k m.objects ≡ some e → IsNumbered m.gen_seq e
  pub distinct :
      (j k : Bytes) (a b : MemEntry)
      → Assoc.lookup j m.objects ≡ some a
      → Assoc.lookup k m.objects ≡ some b
      → a.generation ≡ b.generation
      → j ≡ k

-- What a successful `Put` has done.
pub record Wrote (key content : Bytes) (cond : Condition) (m : MemStore) (g : Bytes) (m' : MemStore)
    : Type 0 where
  pub seq : m'.gen_seq ≡ (m.gen_seq + 1) % 2 ^ 64
  pub gen : g ≡ local_generation ((m.gen_seq + 1) % 2 ^ 64) (length content)
  pub objects :
      m'.objects ≡ Assoc.insert key (record { content = content; generation = g }) m.objects
  pub met : refuses cond (Assoc.lookup key m.objects) ≡ false

module _ (ctx : Context) (key : Bytes) (cond : Condition) (m : MemStore) where
  pub put_lem :
      (content g : Bytes) (m' : MemStore)
      → put ctx key (ok content) cond m ≡ ok (g, m')
      → Wrote key content cond m g m'
  unfolding put
  put_lem content g m' h = ground arith

pub IsValid-new : IsValid new_mem_store
IsValid-new = record {
  unique = tt;
  numbered = λ k e h. unfold Assoc.lookup in cc;
  distinct = λ j k a b h. unfold Assoc.lookup in cc;
}

-- A number of an int64 that the wrap-around leaves alone.
next_seq : (n : ℕ) → n + 1 < 2 ^ 63 → (n + 1) % 2 ^ 64 ≡ n + 1
next_seq n h = omega arith

IsNumbered-mono : (n n' : ℕ) (e : MemEntry) → n ≤ n' → IsNumbered n e → IsNumbered n' e
IsNumbered-mono n n' e h (s, lo, hi, g) = (s, lo, omega arith, g)

module _ {m m' : MemStore} {key content g : Bytes} {cond : Condition} where
  -- What a key holds after a write.
  pub lookup-put :
      Wrote key content cond m g m'
      → (k : Bytes)
      → Assoc.lookup k m'.objects ≡ (
          if bytes_eq key k
          then some (record { content = content; generation = g })
          else Assoc.lookup k m.objects)
  lookup-put w k =
      rw w.objects
        (Assoc.lookup-insert key k (record { content = content; generation = g }) m.objects)

  -- What is found after a write is what was written, or was there before.
  pub found_after :
      Wrote key content cond m g m'
      → (k : Bytes) (e : MemEntry) → Assoc.lookup k m'.objects ≡ some e
      → ((k ≡ key) × (e ≡ record { content = content; generation = g }))
        ⊎ (Assoc.lookup k m.objects ≡ some e)
  found_after w k e found = ground (arith, lookup-put w k, bytes_eq_iff key k)

  -- The number of a write is the state's counter.
  pub Wrote-IsNumbered :
      Wrote key content cond m g m'
      → m.gen_seq + 1 < 2 ^ 63
      → IsNumbered m'.gen_seq (record { content = content; generation = g })
  Wrote-IsNumbered w h = (
    m.gen_seq + 1,
    omega arith,
    omega (arith, w.seq),
    w.gen ∙ ap (λ s. local_generation s (length content)) (next_seq m.gen_seq h),
  )

  -- A write makes no generation anew that an earlier write made.
  pub Wrote-ne-Taken :
      Wrote key content cond m g m' → m.gen_seq + 1 < 2 ^ 63 → (old : Bytes) → Taken old m → g ≢ old
  Wrote-ne-Taken w h old (s, n, hi, gen) same = absurd (
      omega (
        arith,
        local_generation-injective s (m.gen_seq + 1) n (length content) (omega arith) h (
            sym gen
            ∙ sym same
            ∙ w.gen
            ∙ ap (λ t. local_generation t (length content)) (next_seq m.gen_seq h)),
      ))

  pub Wrote-Taken : Wrote key content cond m g m' → m.gen_seq + 1 < 2 ^ 63 → Taken g m'
  Wrote-Taken w h = (
    m.gen_seq + 1,
    length content,
    omega (arith, w.seq),
    w.gen ∙ ap (λ s. local_generation s (length content)) (next_seq m.gen_seq h),
  )

pub IsValid-Taken :
    {m : MemStore}
    → IsValid m
    → (k : Bytes) (e : MemEntry) → Assoc.lookup k m.objects ≡ some e
    → Taken e.generation m
IsValid-Taken v k e found =
    let (s, lo, hi, gen) = v.numbered k e found in (s, length e.content, hi, gen)

module _ {m m' : MemStore} {key content g : Bytes} {cond : Condition} where
  -- A write of the store keeps its state well formed, while the counter is in range.
  pub Wrote-IsValid :
      Wrote key content cond m g m' → IsValid m → m.gen_seq + 1 < 2 ^ 63 → IsValid m'
  Wrote-IsValid w v h = record {
    unique = rw w.objects (
        Assoc.insert-IsUnique key (record { content = content; generation = g }) m.objects
          v.unique);
    numbered = λ k e found. elim (found_after w k e found) [
      | inl (_, e_new) ↦ rw e_new (Wrote-IsNumbered w h)
      | inr old ↦ IsNumbered-mono m.gen_seq m'.gen_seq e (omega (arith, w.seq)) (v.numbered k e old)
    ];
    distinct = λ j k a b found_a found_b same.
        one_key j k a b found_a found_b same (found_after w j a found_a)
          (found_after w k b found_b);
  }
    where
      one_key :
          (j k : Bytes) (a b : MemEntry)
          → Assoc.lookup j m'.objects ≡ some a
          → Assoc.lookup k m'.objects ≡ some b
          → a.generation ≡ b.generation
          → ((j ≡ key) × (a ≡ record { content = content; generation = g }))
            ⊎ (Assoc.lookup j m.objects ≡ some a)
          → ((k ≡ key) × (b ≡ record { content = content; generation = g }))
            ⊎ (Assoc.lookup k m.objects ≡ some b)
          → j ≡ k
      one_key j k a b fa fb same (inl (ja, _)) (inl (kb, _)) = ja ∙ sym kb
      one_key j k a b fa fb same (inl (_, ea)) (inr old) = absurd (
          Wrote-ne-Taken w h b.generation (IsValid-Taken v k b old)
            (ap (λ (e : MemEntry). e.generation) (sym ea) ∙ same))
      one_key j k a b fa fb same (inr old) (inl (_, eb)) = absurd (
          Wrote-ne-Taken w h a.generation (IsValid-Taken v j a old)
            (ap (λ (e : MemEntry). e.generation) (sym eb) ∙ sym same))
      one_key j k a b fa fb same (inr old_a) (inr old_b) = v.distinct j k a b old_a old_b same

pub Taken-nonempty : (m : MemStore) (g : Bytes) → Taken g m → is_empty g ≡ false
Taken-nonempty m g (s, n, _, gen) = rw gen (local_generation-nonempty s n)

module _ (ctx : Context) (key : Bytes) where
  -- What a successful `Delete` has done.
  pub delete_lem :
      (m m' : MemStore)
      → delete ctx key m ≡ ok m'
      → m' ≡ record m { objects = Assoc.delete key m.objects }
  unfolding delete
  delete_lem m m' h = ground arith

  pub found_after_delete :
      (m m' : MemStore)
      → delete ctx key m ≡ ok m'
      → (k : Bytes) (e : MemEntry) → Assoc.lookup k m'.objects ≡ some e
      → Assoc.lookup k m.objects ≡ some e
  found_after_delete m m' h k e found =
      ground (arith, delete_lem m m' h, Assoc.lookup-delete key k m.objects)

  -- A `Delete` keeps the state well formed.
  pub delete-IsValid : (m m' : MemStore) → delete ctx key m ≡ ok m' → IsValid m → IsValid m'
  delete-IsValid m m' h v = record {
    unique = rw (delete_lem m m' h) (Assoc.delete-IsUnique key m.objects v.unique);
    numbered =
        λ k e found. rw (delete_lem m m' h) (v.numbered k e (found_after_delete m m' h k e found));
    distinct = λ j k a b fa fb.
        v.distinct j k a b (found_after_delete m m' h j a fa) (found_after_delete m m' h k b fb);
  }
