-- ===== src/Namespace/Branches/Changes.antt =====
-- What the changes of a namespace's branches have done.
use cloudy_neigh.Prelude.{◌+◌, ◌≡◌, refl, Option, none, some, [], Bytes, ok, ◌⊎◌, inl, inr, length}
use cloudy_neigh.ObjectStore.Defs.{Context}
use cloudy_neigh.ObjectStore.World.{World}
use cloudy_neigh.ObjectStore.World.Room.{Room}
use cloudy_neigh.ObjectStore.World.Reached.{Reached, start}
use cloudy_neigh.ObjectStore.Document.{Codec, keep, replace}
use cloudy_neigh.ObjectStore.Document.Atomic.{Ended, kept, written, update_loop-Ended}
use cloudy_neigh.ObjectStore.Document.Writes.{Replaced}
use cloudy_neigh.ObjectStore.Document.Reads.{WasRead, read_or-WasRead}
use cloudy_neigh.Namespace.Names.{Scope, branches_key}
use cloudy_neigh.Namespace.Branches.{
  BranchCatalog, changed, change_step, read_branch_catalog, update_branches,
}

changed-replace :
    (o : Option BranchCatalog) (new : BranchCatalog) (result : Bytes → Unit {0})
    → changed o ≡ replace new result
    → o ≡ some new
changed-replace none new result h = cc
changed-replace (some b) new result h = cc

changed-keep : (o : Option BranchCatalog) → changed o ≡ keep (ok tt) → o ≡ none
changed-keep none h = refl
changed-keep (some b) h = cc

module _ (codec : Codec BranchCatalog) (ctx : Context) (s : Scope) where
  -- An update that changed the branches that it read, or left them alone.
  abbrev pub Updated : (BranchCatalog → Option BranchCatalog) → World → World → Type 0
  Updated change first w =
      ((old : BranchCatalog) × (new : BranchCatalog) × (g : Bytes) × (change old ≡ some new)
        × Replaced codec (branches_key s) ctx [] old new g first w)
      ⊎ ((old : BranchCatalog) × (gen : Bytes) × (change old ≡ none)
          × (u : World) × Reached ctx (branches_key s) first u
          × WasRead codec (branches_key s) ctx [] old gen u w)

  update-Ended :
      (change : BranchCatalog → Option BranchCatalog) (first w : World)
      → Ended codec (branches_key s) ctx [] (change_step change) tt first w
      → Updated change first w
  update-Ended change first w (kept old gen u at_read was d) =
      inr (old, gen, changed-keep (change old) d, u, at_read, was)
  update-Ended change first w (written old new gen g result d same r) =
      inl (old, new, g, changed-replace (change old) new result d, r)

  -- When an update of the branches returns with no error, it has replaced, at one moment, the
  -- branches by what the change makes of them, or it has read branches, or that there are none, which
  -- the change leaves alone. The world has a well-formed store whose counter stays an int64.
  pub update_branches_lem :
      (change : BranchCatalog → Option BranchCatalog) (w w' : World)
      → Room w
      → update_branches codec ctx s change w ≡ (ok tt, w')
      → Updated change w w'
  unfolding update_branches read_branch_catalog
  update_branches_lem change w w' room h = update-Ended change w w' (
      update_loop-Ended codec (branches_key s) ctx [] (read_branch_catalog codec ctx s)
        (change_step change) (read_or-WasRead codec (branches_key s) ctx []) (length w.schedule + 1)
        w w w' tt start h room)
