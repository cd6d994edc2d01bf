-- ===== src/Query/Loader/Counts.antt =====
-- What a loader counts, and when it is up to date.
use cloudy_neigh.Prelude.{
  ℕ, zero, suc, ◌+◌, ◌≤◌, ◌<◌, ◌≡◌, refl, sym, ◌&&◌, not, Option, none, some, List, [], ◌∷◌, Bytes,
  length, drop, length-drop, is_empty, bytes_eq, ltb, Error, Result, ok, err, ◌⊎◌, inl, inr,
  Bool-cases, arith, bytes_eq_iff,
}
use cloudy_neigh.ObjectStore.Defs.{Context, Object}
use cloudy_neigh.ObjectStore.World
use cloudy_neigh.ObjectStore.World.{World}
use cloudy_neigh.Namespace.Names.{Scope, manifest_key, segment_key}
use cloudy_neigh.Manifest
use cloudy_neigh.Manifest.{BranchManifest, SegmentRef}
use cloudy_neigh.Ingest.Messages.{Codecs}
use cloudy_neigh.Query.Numbers.{Arithmetic, Kernels}
use cloudy_neigh.Query.Table.{Table}
use cloudy_neigh.Query.Loader.{
  Loader, Synced, stopped, on_loaded, on_segment, load_segment, load_segments, sync_new, sync,
}

module _ (codecs : Codecs) (numbers : Arithmetic) (kernels : Kernels) (ctx : Context) where
  -- The segments, read from the store one after the other in their order, lead from a table to another
  -- one, and from a world to another one.
  abbrev pub Leads : Scope → List SegmentRef → Table → World → Table → World → Type 0
  Leads scope [] t w t' w' = (t ≡ t') × (w ≡ w')
  Leads scope (seg ∷ segs) t w t' w' =
      (content : Bytes) × (o : Object) × (t1 : Table) × (w1 : World) × (World.get ctx
          (segment_key scope seg.segment_id) w
        ≡ (ok (content, o), w1))
      × (load_segment codecs numbers kernels ctx content t ≡ (none, t1))
      × Leads scope segs t1 w1 t' w'

  -- The loader has counted what was loaded of the segments that there were; with no error it has
  -- loaded them all into the table that it publishes, and has noted the generation.
  pub record Counted (l : Loader) (n : ℕ) (segs : List SegmentRef) (gen : Bytes) (t : Table)
      (w : World) (s : Synced) : Type 0 where
    pub counts : s.loader.applied + n ≡ l.applied + s.loaded
    pub at_least : n ≤ s.loaded
    pub at_most : s.loaded ≤ n + length segs
    pub at_end :
        ((e : Error) × (s.error ≡ some e) × ((0 < s.loaded) ⊎ (s.loader ≡ l)))
        ⊎ ((s.error ≡ none)
            × (s.loaded ≡ n + length segs)
            × (s.loader.last_gen ≡ gen)
            × Leads l.scope segs t w s.loader.table s.world)

  stopped-Counted :
      (n : ℕ) (segs : List SegmentRef) (gen : Bytes) (e : Error) (t0 t : Table) (l : Loader)
      (w0 w : World)
      → Counted l n segs gen t0 w0 (stopped codecs numbers kernels ctx n e t l w)
  stopped-Counted zero segs gen e t0 t l w0 w = record {
    counts = refl;
    at_least = omega arith;
    at_most = omega arith;
    at_end = inl (e, refl, inr refl);
  }
  stopped-Counted (suc n) segs gen e t0 t l w0 w = record {
    counts = refl;
    at_least = omega arith;
    at_most = omega arith;
    at_end = inl (e, refl, inl (omega arith));
  }

  load_segments-Counted :
      (gen : Bytes) (segs : List SegmentRef) (n : ℕ) (t : Table) (l : Loader) (w : World)
      → Counted l n segs gen t w (load_segments codecs numbers kernels ctx gen segs n t l w)
  unfolding load_segments
  load_segments-Counted gen [] n t l w = record {
    counts = refl;
    at_least = omega arith;
    at_most = omega arith;
    at_end = inr (refl, omega arith, refl, (refl, refl));
  }
  load_segments-Counted gen (seg ∷ segs) n t l w =
      on_get (λ n' t' l' w'. load_segments-Counted gen segs n' t' l' w')
        (World.get ctx (segment_key l.scope seg.segment_id) w) refl
    where
      Go : Type 0
      Go =
          (n' : ℕ) (t' : Table) (l' : Loader) (w' : World)
          → Counted l' n' segs gen t' w'
              (load_segments codecs numbers kernels ctx gen segs n' t' l' w')

      on_load :
          Go
          → (r : Bytes × Object) (w' : World) (p : Option Error × Table)
          → World.get ctx (segment_key l.scope seg.segment_id) w ≡ (ok r, w')
          → load_segment codecs numbers kernels ctx r.0 t ≡ p
          → Counted l n (seg ∷ segs) gen t w (
              on_loaded codecs numbers kernels ctx
                (load_segments codecs numbers kernels ctx gen segs)
                n
                l
                w'
                p)
      on_load go r w' (some e, t') got ran = stopped-Counted n (seg ∷ segs) gen e t t' l w w'
      on_load go r w' (none, t') got ran =
          let c = go (suc n) t' (record l { applied = l.applied + 1 }) w' in
          record {
            counts = omega (arith, c.counts);
            at_least = omega (arith, c.at_least);
            at_most = omega (arith, c.at_most);
            at_end = elim c.at_end [
              | inl (e, failed, _) ↦ inl (e, failed, inl (omega (arith, c.at_least)))
              | inr (none_left, all, is_gen, leads) ↦
                  inr (none_left, omega arith, is_gen, (r.0, r.1, t', w', got, ran, leads))
            ];
          }

      on_get :
          Go
          → (p : Result (Bytes × Object) × World)
          → World.get ctx (segment_key l.scope seg.segment_id) w ≡ p
          → Counted l n (seg ∷ segs) gen t w (
              on_segment codecs numbers kernels ctx
                (load_segments codecs numbers kernels ctx gen segs)
                n
                t
                l
                p)
      on_get go (err e, w') got = stopped-Counted n (seg ∷ segs) gen e t t l w w'
      on_get go (ok r, w') got =
          on_load go r w' (load_segment codecs numbers kernels ctx r.0 t) got refl

  -- What a pass over a manifest has done to the loader.
  pub record Passed (l : Loader) (m : BranchManifest) (gen : Bytes) (w1 : World) (s : Synced)
      : Type 0 where
    pub counts : s.loader.applied ≡ l.applied + s.loaded
    pub at_most : (s.loaded ≡ 0) ⊎ (s.loader.applied ≤ length m.segments)
    pub at_end :
        ((e : Error) × (s.error ≡ some e) × ((0 < s.loaded) ⊎ (s.loader ≡ l)))
        ⊎ (((s.error ≡ none) × (s.loader ≡ l) × (l.last_gen ≡ gen))
            ⊎ ((s.error ≡ none)
                × (s.loader.applied ≡ length m.segments)
                × (s.loader.last_gen ≡ gen)
                × Leads l.scope (drop l.applied m.segments) l.table w1 s.loader.table s.world))

  sync_new-Passed :
      (m : BranchManifest) (gen : Bytes) (l : Loader) (w : World)
      → Passed l m gen w (sync_new codecs numbers kernels ctx m gen l w)
  sync_new-Passed m gen l w = elim (Bool-cases (ltb (length m.segments) l.applied)) [
    | inl truncated ↦
        rw truncated
          (record { counts = omega arith; at_most = inl refl; at_end = inl (_, refl, inr refl) })
    | inr more ↦
        let fits : l.applied ≤ length m.segments = ground arith in
        let c = load_segments-Counted gen (drop l.applied m.segments) 0 l.table l w in
        let left = length-drop l.applied m.segments in
        rw more (record {
          counts = omega (arith, c.counts);
          at_most = inr (omega (arith, c.counts, c.at_most, left, fits));
          at_end = elim c.at_end [
            | inl failed ↦ inl failed
            | inr (no_error, all, is_gen, leads) ↦
                inr (inr (no_error, omega (arith, c.counts, all, left, fits), is_gen, leads))
          ];
        })
  ]

  -- A pass that has read a manifest counts, as applied, what it reports as loaded, and never more than
  -- the manifest has segments, unless it loads nothing. If it reports an error, it has loaded a segment
  -- before, or leaves the loader as it was. If it reports an error, it has loaded a segment
  -- before, or leaves the loader as it was. If it reports no error, then it had noted the
  -- generation of the manifest before, and leaves the loader as it was, or it has applied as many
  -- segments as the manifest has, has noted its generation, and its table is the one before with the
  -- segments of the manifest behind those applied before, as the store gives them, loaded one after
  -- the other.
  pub sync-Passed :
      (l : Loader) (m : BranchManifest) (gen : Bytes) (w w1 : World)
      → Manifest.read codecs.manifest ctx (manifest_key l.scope l.branch) w ≡ (ok (m, gen), w1)
      → Passed l m gen w1 (sync codecs numbers kernels ctx l w)
  unfolding sync
  sync-Passed l m gen w w1 r =
      rw r (elim (Bool-cases (not (is_empty gen) && bytes_eq gen l.last_gen)) [
        | inl known ↦
            let same : gen ≡ l.last_gen = ground (arith, bytes_eq_iff gen l.last_gen) in
            rw known (record {
              counts = omega arith;
              at_most = inl refl;
              at_end = inr (inl (refl, refl, sym same));
            })
        | inr fresh ↦ rw fresh (sync_new-Passed m gen l w1)
      ])
