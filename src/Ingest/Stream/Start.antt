-- ===== src/Ingest/Stream/Start.antt =====
-- Where the loop of a namespace starts.
use mathlib.Core.Path.{subst₂}
use cloudy_neigh.Prelude.{
  ℕ, ◌≤◌, ◌≡◌, refl, Option, none, some, List, [], ◌∷◌, Bytes, bytes_eq, ltb, Error, Result, ok,
  err, is_not_found, ◌⊎◌, inl, inr, Bool-cases, arith, All,
}
use cloudy_neigh.Prelude.Assoc
use cloudy_neigh.Prelude.Assoc.{Assoc}
use cloudy_neigh.ObjectStore.Defs.{Context}
use cloudy_neigh.ObjectStore.World.{World}
use cloudy_neigh.Namespace.Names.{Scope, manifest_key}
use cloudy_neigh.Namespace.Branches.{list_branches}
use cloudy_neigh.Manifest
use cloudy_neigh.Manifest.{BranchManifest}
use cloudy_neigh.Ingest.Messages.{Codecs}
use cloudy_neigh.Ingest.Flush.{Checkpoints}
use cloudy_neigh.Ingest.Stream.{
  Found, with_manifest, or_zero, noted_manifest, read_checkpoints, lowest_of, checkpoints_of,
  init_checkpoints,
}

-- No checkpoint is below the number.
abbrev pub NoneBelow : ℕ → Checkpoints → Type 0
NoneBelow n cs = All (λ (p : Bytes × ℕ). n ≤ p.1) cs

NoneBelow-le : (n m : ℕ) (cs : Checkpoints) → n ≤ m → NoneBelow m cs → NoneBelow n cs
NoneBelow-le n m [] h k = tt
NoneBelow-le n m ((b, c) ∷ cs) h (l, k) = (omega arith, NoneBelow-le n m cs h k)

NoneBelow-insert :
    (n c : ℕ) (branch : Bytes) (cs : Checkpoints)
    → n ≤ c
    → NoneBelow n cs
    → NoneBelow n (Assoc.insert branch c cs)
unfolding Assoc.insert
NoneBelow-insert n c branch [] h k = (h, tt)
NoneBelow-insert n c branch ((b, d) ∷ cs) h (l, k) = elim (Bool-cases (bytes_eq b branch)) [
  | inl same ↦ rw same (h, k)
  | inr other ↦ rw other (l, NoneBelow-insert n c branch cs h k)
]

-- The lowest of what was found so far.
abbrev IsLowest : Found → Type 0
IsLowest f =
    ((f.lowest ≡ none) × (f.checkpoints ≡ []))
    ⊎ ((n : ℕ) × (f.lowest ≡ some n) × NoneBelow n f.checkpoints)

IsLowest-or_zero : (f : Found) → IsLowest f → NoneBelow (or_zero f.lowest) f.checkpoints
IsLowest-or_zero f (inl (e, empty)) = rw empty tt
IsLowest-or_zero f (inr (n, e, h)) = rw e h

with_manifest-IsLowest :
    (branch : Bytes) (m : BranchManifest) (f : Found)
    → IsLowest f
    → IsLowest (with_manifest branch m f)
with_manifest-IsLowest branch m f (inl (e, empty)) =
    rw e (inr (m.checkpoint_seq, refl, rw empty (NoneBelow-insert _ _ branch [] (omega arith) tt)))
with_manifest-IsLowest branch m f (inr (n, e, h)) = elim (Bool-cases (ltb m.checkpoint_seq n)) [
  | inl less ↦
      let low : m.checkpoint_seq ≤ n = ground arith in
      rw e (
        rw less (
          inr (
            m.checkpoint_seq,
            refl,
            NoneBelow-insert _ _ branch f.checkpoints (omega arith)
                (NoneBelow-le m.checkpoint_seq n f.checkpoints low h),
          )))
  | inr more ↦
      let high : n ≤ m.checkpoint_seq = ground arith in
      rw e (rw more (inr (n, refl, NoneBelow-insert _ _ branch f.checkpoints high h)))
]

module _ (codecs : Codecs) (sha256 : Bytes → Bytes) (ctx : Context) (scope : Scope) where
  read_checkpoints-IsLowest :
      (branches : List Bytes) (f : Found) (w : World)
      → IsLowest f
      → IsLowest (read_checkpoints codecs sha256 ctx scope branches f w).1
  unfolding read_checkpoints
  read_checkpoints-IsLowest [] f w h = h
  read_checkpoints-IsLowest (branch ∷ branches) f w h =
      by_read (λ f' w'. read_checkpoints-IsLowest branches f' w')
        (Manifest.read codecs.manifest ctx (manifest_key scope branch) w)
    where
      by_read :
          ((f' : Found) (w' : World)
            → IsLowest f'
            → IsLowest (read_checkpoints codecs sha256 ctx scope branches f' w').1)
          → (p : Result (BranchManifest × Bytes) × World)
          → IsLowest
              (noted_manifest codecs sha256 ctx scope
                (read_checkpoints codecs sha256 ctx scope branches)
                branch
                f
                p).1
      by_read go (ok r, w') = go _ w' (with_manifest-IsLowest branch r.0 f h)
      by_read go (err e, w') = elim (Bool-cases (is_not_found e)) [
        | inl missing ↦ rw missing (go f w' h)
        | inr other ↦ rw other h
      ]

  lowest_of-NoneBelow :
      (p : Option Error × Found × World) (n : ℕ) (cs : Checkpoints) (w : World)
      → IsLowest p.1
      → lowest_of codecs sha256 ctx scope p ≡ (ok n, cs, w)
      → NoneBelow n cs
  lowest_of-NoneBelow (some e, f, w') n cs w h k = cc
  lowest_of-NoneBelow (none, f, w') n cs w h k =
      let is_n : or_zero f.lowest ≡ n = cc in
      let is_cs : f.checkpoints ≡ cs = cc in subst₂ NoneBelow is_n is_cs (IsLowest-or_zero f h)

  checkpoints_of-NoneBelow :
      (p : Result (List Bytes) × World) (n : ℕ) (cs : Checkpoints) (w : World)
      → checkpoints_of codecs sha256 ctx scope [] p ≡ (ok n, cs, w)
      → NoneBelow n cs
  checkpoints_of-NoneBelow (ok branches, w') n cs w h =
      lowest_of-NoneBelow _ n cs w
        (read_checkpoints-IsLowest branches (record { checkpoints = []; lowest = none }) w'
          (inl (refl, refl)))
        h
  checkpoints_of-NoneBelow (err e, w') n cs w h = cc

  -- The number that a loop starts behind is not above the checkpoint of any branch that it has read,
  -- so that it misses no batch of any of them.
  pub init_checkpoints-NoneBelow :
      (n : ℕ) (cs : Checkpoints) (w w' : World)
      → init_checkpoints codecs sha256 ctx scope [] w ≡ (ok n, cs, w')
      → NoneBelow n cs
  unfolding init_checkpoints
  init_checkpoints-NoneBelow n cs w w' h =
      checkpoints_of-NoneBelow (list_branches codecs.branches ctx scope w) n cs w' h
