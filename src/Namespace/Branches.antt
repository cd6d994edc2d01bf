-- ===== src/Namespace/Branches.antt =====
-- namespace/branch.go: the branches of a namespace, in one object.
pub mod Changes
use cloudy_neigh.Prelude.{
  ℕ, Bool, true, false, Option, none, some, List, [], ◌∷◌, Bytes, if◌then◌else◌, Result, ok,
}
use cloudy_neigh.Prelude.Assoc
use cloudy_neigh.Prelude.Assoc.{Assoc, keys}
use cloudy_neigh.ObjectStore.Defs.{Context}
use cloudy_neigh.ObjectStore.Mem.{sort_strings}
use cloudy_neigh.ObjectStore.World.{Io, pure, ◌>>=◌}
use cloudy_neigh.ObjectStore.Document.{Codec, Decision, keep, replace, read_or, update_loop}
use cloudy_neigh.Namespace.Names.{Scope, branches_key, default_branch}
use cloudy_neigh.Namespace.Catalog.{tries}

-- The map of a namespacepb.BranchCatalog, whose values are empty messages.
abbrev pub BranchCatalog : Type 0
BranchCatalog = Assoc (Unit {0})

abbrev pub branches_or_default : BranchCatalog → List Bytes
branches_or_default [] = default_branch ∷ []
branches_or_default (b ∷ branches) = sort_strings (keys (b ∷ branches))

-- The changes of `AddBranch` and `RemoveBranch`, from what was found under the name; none where the
-- source's `change` returns false.
abbrev pub added_found : Bytes → BranchCatalog → Option (Unit {0}) → Option BranchCatalog
added_found branch branches (some _) = none
added_found branch branches none = some (Assoc.insert branch tt branches)

abbrev pub added : Bytes → BranchCatalog → Option BranchCatalog
added branch branches = added_found branch branches (Assoc.lookup branch branches)

abbrev pub removed_found : Bytes → BranchCatalog → Option (Unit {0}) → Option BranchCatalog
removed_found branch branches none = none
removed_found branch branches (some _) = some (Assoc.delete branch branches)

abbrev pub removed : Bytes → BranchCatalog → Option BranchCatalog
removed branch branches = removed_found branch branches (Assoc.lookup branch branches)

-- `if !change(catalog.Branches) { return nil }`
abbrev pub changed : Option BranchCatalog → Decision BranchCatalog (Unit {0})
changed none = keep (ok tt)
changed (some branches') = replace branches' (λ _. tt)

abbrev pub change_step :
    (BranchCatalog → Option BranchCatalog)
    → BranchCatalog
    → Bytes
    → Decision BranchCatalog (Unit {0})
change_step change branches gen = changed (change branches)

module _ (codec : Codec BranchCatalog) (ctx : Context) (s : Scope) where
  -- readBranchCatalog
  unfoldable pub read_branch_catalog : Io (BranchCatalog × Bytes)
  read_branch_catalog = read_or codec (branches_key s) ctx []

  -- ListBranches
  unfoldable pub list_branches : Io (List Bytes)
  list_branches = read_branch_catalog >>= λ r. pure (branches_or_default r.0)

  -- updateBranches
  unfoldable pub update_branches : (BranchCatalog → Option BranchCatalog) → Io (Unit {0})
  update_branches change =
      tries (λ n. update_loop codec (branches_key s) ctx n read_branch_catalog (change_step change))

  -- AddBranch
  unfoldable pub add_branch : Bytes → Io (Unit {0})
  add_branch branch = update_branches (added branch)

  -- RemoveBranch
  unfoldable pub remove_branch : Bytes → Io (Unit {0})
  remove_branch branch = update_branches (removed branch)
