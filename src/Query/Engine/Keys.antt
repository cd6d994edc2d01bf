-- ===== src/Query/Engine/Keys.antt =====
-- Every loader of an engine is the one of its key.
use cloudy_neigh.Prelude.{
  ℕ, ◌≡◌, refl, ◌∙◌, true, ◌&&◌, ◌+◌, not, Option, none, some, List, [], ◌∷◌, Bytes, bytes_eq,
  bytes_eq_iff, Error, Result, ok, err, inl, inr, Bool-cases, arith, All, is_empty, ltb, length,
  drop, zero, suc,
}
use cloudy_neigh.ObjectStore.Defs.{Context, Object}
use cloudy_neigh.ObjectStore.World
use cloudy_neigh.ObjectStore.World.{World}
use cloudy_neigh.Namespace.Names.{segment_key}
use cloudy_neigh.Namespace.Catalog.{active_namespaces}
use cloudy_neigh.Namespace.Branches.{list_branches}
use cloudy_neigh.Manifest.{BranchManifest, SegmentRef}
use cloudy_neigh.Ingest.Messages.{Codecs}
use cloudy_neigh.Query.Numbers.{Arithmetic, Kernels}
use cloudy_neigh.Query.Table.{Table}
use cloudy_neigh.Query.Loader.{
  Loader, stopped, on_loaded, on_segment, load_segment, load_segments, sync_read, sync,
}
use cloudy_neigh.Query.Engine.{
  BranchKey, Loaders, key_eq, find, keep, loader_of, sync_branch, sync_branches, listed,
  sync_namespaces, discovered, unless_done, sync_once,
}

-- The loader reads the branch of the key.
pub record IsFor (key : BranchKey) (l : Loader) : Type 0 where
  pub scope : l.scope.name ≡ key.namespace
  pub branch : l.branch ≡ key.branch

abbrev pub Keyed : Loaders → Type 0
Keyed loaders = All (λ (p : BranchKey × Loader). IsFor p.0 p.1) loaders

key_eq-true :
    (a b : BranchKey) → key_eq a b ≡ true → (a.namespace ≡ b.namespace) × (a.branch ≡ b.branch)
unfolding key_eq
key_eq-true a b h = (
  ground (arith, bytes_eq_iff a.namespace b.namespace),
  ground (arith, bytes_eq_iff a.branch b.branch),
)

find-Keyed :
    (key : BranchKey) (l : Loader) (loaders : Loaders)
    → Keyed loaders
    → find key loaders ≡ some l
    → IsFor key l
unfolding find
find-Keyed key l [] h e = cc
find-Keyed key l ((k, l') ∷ loaders) (here, h) e = elim (Bool-cases (key_eq k key)) [
  | inl is_key ↦
      let at : some l' ≡ some l = rw is_key at e in
      let same : l' ≡ l = cc in
      let (ns, b) = key_eq-true k key is_key in
      let is_for : IsFor key l' = record { scope = here.scope ∙ ns; branch = here.branch ∙ b } in
      rw same at is_for
  | inr other ↦ find-Keyed key l loaders h (rw other at e)
]

keep-Keyed :
    (key : BranchKey) (l : Loader) (loaders : Loaders)
    → Keyed loaders
    → IsFor key l
    → Keyed (keep key l loaders)
unfolding keep
keep-Keyed key l [] h new = (new, tt)
keep-Keyed key l ((k, l') ∷ loaders) (here, h) new = elim (Bool-cases (key_eq k key)) [
  | inl is_key ↦ rw is_key (new, h)
  | inr other ↦ rw other (here, keep-Keyed key l loaders h new)
]

loader_of-IsFor :
    (key : BranchKey) (o : Option Loader) (loaders : Loaders)
    → Keyed loaders
    → find key loaders ≡ o
    → IsFor key (loader_of key o)
loader_of-IsFor key (some l) loaders h e = find-Keyed key l loaders h e
loader_of-IsFor key none loaders h e = record { scope = refl; branch = refl }

module _ (codecs : Codecs) (numbers : Arithmetic) (kernels : Kernels) (ctx : Context) where
  -- The loader still follows the branch of a key.
  stopped-IsFor :
      (key : BranchKey) (n : ℕ) (e : Error) (t : Table) (l : Loader) (w : World)
      → IsFor key l
      → IsFor key (stopped codecs numbers kernels ctx n e t l w).loader
  stopped-IsFor key zero e t l w h = h
  stopped-IsFor key (suc n) e t l w h = record { scope = h.scope; branch = h.branch }

  load_segments-IsFor :
      (key : BranchKey) (gen : Bytes) (segs : List SegmentRef) (n : ℕ) (t : Table) (l : Loader)
      (w : World)
      → IsFor key l
      → IsFor key (load_segments codecs numbers kernels ctx gen segs n t l w).loader
  unfolding load_segments
  load_segments-IsFor key gen [] n t l w h = record { scope = h.scope; branch = h.branch }
  load_segments-IsFor key gen (seg ∷ segs) n t l w h =
      on_get (λ n' t' l' w' h'. load_segments-IsFor key gen segs n' t' l' w' h')
        (World.get ctx (segment_key l.scope seg.segment_id) w)
    where
      Go : Type 0
      Go =
          (n' : ℕ) (t' : Table) (l' : Loader) (w' : World)
          → IsFor key l'
          → IsFor key (load_segments codecs numbers kernels ctx gen segs n' t' l' w').loader

      on_load :
          Go
          → (w' : World) (p : Option Error × Table)
          → IsFor key
              (on_loaded codecs numbers kernels ctx
                (load_segments codecs numbers kernels ctx gen segs)
                n
                l
                w'
                p).loader
      on_load go w' (some e, t') = stopped-IsFor key n e t' l w' h
      on_load go w' (none, t') =
          go (suc n) t' (record l { applied = l.applied + 1 }) w'
            (record { scope = h.scope; branch = h.branch })

      on_get :
          Go
          → (p : Result (Bytes × Object) × World)
          → IsFor key
              (on_segment codecs numbers kernels ctx
                (load_segments codecs numbers kernels ctx gen segs)
                n
                t
                l
                p).loader
      on_get go (err e, w') = stopped-IsFor key n e t l w' h
      on_get go (ok r, w') = on_load go w' (load_segment codecs numbers kernels ctx r.0 t)

  sync_read-IsFor :
      (key : BranchKey) (l : Loader) (p : Result (BranchManifest × Bytes) × World)
      → IsFor key l
      → IsFor key (sync_read codecs numbers kernels ctx l p).loader
  sync_read-IsFor key l (err e, w) h = h
  sync_read-IsFor key l (ok r, w) h =
      elim (Bool-cases (not (is_empty r.1) && bytes_eq r.1 l.last_gen)) [
        | inl known ↦ rw known h
        | inr fresh ↦ rw fresh (elim (Bool-cases (ltb (length r.0.segments) l.applied)) [
          | inl truncated ↦ rw truncated h
          | inr more ↦
              rw more (load_segments-IsFor key r.1 (drop l.applied r.0.segments) 0 l.table l w h)
        ])
      ]

  sync_branch-Keyed :
      (key : BranchKey) (loaders : Loaders) (w : World)
      → Keyed loaders
      → Keyed (sync_branch codecs numbers kernels ctx key loaders w).0
  unfolding sync_branch sync
  sync_branch-Keyed key loaders w h = keep-Keyed key _ loaders h (
      sync_read-IsFor key (loader_of key (find key loaders)) _
        (loader_of-IsFor key (find key loaders) loaders h refl))

  sync_branches-Keyed :
      (ns : Bytes) (branches : List Bytes) (loaders : Loaders) (w : World)
      → Keyed loaders
      → Keyed (sync_branches codecs numbers kernels ctx ns branches loaders w).0
  unfolding sync_branches
  sync_branches-Keyed ns [] loaders w h = h
  sync_branches-Keyed ns (branch ∷ branches) loaders w h =
      let key : BranchKey = record { namespace = ns; branch = branch } in
      let p = sync_branch codecs numbers kernels ctx key loaders w in
      sync_branches-Keyed ns branches p.0 p.1 (sync_branch-Keyed key loaders w h)

  sync_namespaces-Keyed :
      (namespaces : List Bytes) (loaders : Loaders) (w : World)
      → Keyed loaders
      → Keyed (sync_namespaces codecs numbers kernels ctx namespaces loaders w).1
  unfolding sync_namespaces
  sync_namespaces-Keyed [] loaders w h = h
  sync_namespaces-Keyed (ns ∷ namespaces) loaders w h =
      on_list (λ l' w' h'. sync_namespaces-Keyed namespaces l' w' h')
        (list_branches codecs.branches ctx (record { name = ns }) w)
    where
      on_list :
          ((l' : Loaders) (w' : World)
            → Keyed l'
            → Keyed (sync_namespaces codecs numbers kernels ctx namespaces l' w').1)
          → (p : Result (List Bytes) × World)
          → Keyed
              (listed codecs numbers kernels ctx
                (sync_namespaces codecs numbers kernels ctx namespaces)
                ns
                loaders
                p).1
      on_list go (err e, w') = h
      on_list go (ok branches, w') =
          let p = sync_branches codecs numbers kernels ctx ns branches loaders w' in
          go p.0 p.1 (sync_branches-Keyed ns branches loaders w' h)

  -- Where under each key of an engine stands a loader that follows the namespace and the branch of this
  -- key, it does so after a pass over all branches, whether the pass ends in an error or not.
  pub sync_once-Keyed :
      (loaders : Loaders) (w : World)
      → Keyed loaders
      → Keyed (sync_once codecs numbers kernels ctx loaders w).1
  unfolding sync_once
  sync_once-Keyed loaders w h = by_ctx ctx
    where
      on_discovery :
          (p : Result (List Bytes) × World)
          → Keyed (discovered codecs numbers kernels ctx loaders p).1
      on_discovery (err e, w') = h
      on_discovery (ok namespaces, w') = sync_namespaces-Keyed namespaces loaders w' h

      by_ctx :
          (c : Context)
          → Keyed
              (unless_done codecs numbers kernels ctx c loaders w (
                discovered codecs numbers kernels ctx loaders
                  (active_namespaces codecs.tenant_catalog ctx w))).1
      by_ctx none = on_discovery (active_namespaces codecs.tenant_catalog ctx w)
      by_ctx (some e) = h
