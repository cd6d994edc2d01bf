-- ===== src/Query/Engine.antt =====
-- query/engine.go: the loaders of all branches of all namespaces. One goroutine uses the engine.
pub mod Keys
use cloudy_neigh.Prelude.{
  ℕ, Bool, true, false, ◌&&◌, Option, none, some, List, [], ◌∷◌, Bytes, bytes_eq, if◌then◌else◌,
  Error, Result, ok, err,
}
use cloudy_neigh.ObjectStore.Defs.{Context}
use cloudy_neigh.ObjectStore.World.{World}
use cloudy_neigh.Namespace.Names.{Scope}
use cloudy_neigh.Namespace.Catalog.{active_namespaces}
use cloudy_neigh.Namespace.Branches.{list_branches}
use cloudy_neigh.Ingest.Messages.{Codecs}
use cloudy_neigh.Query.Numbers.{Arithmetic, Kernels}
use cloudy_neigh.Query.Table.{new_table}
use cloudy_neigh.Query.Loader.{Loader, new_loader, Synced, sync}

-- branchKey
pub record BranchKey : Type 0 where
  pub namespace : Bytes
  pub branch : Bytes

-- The map of the loaders.
abbrev pub Loaders : Type 0
Loaders = List (BranchKey × Loader)

unfoldable pub key_eq : BranchKey → BranchKey → Bool
key_eq a b = bytes_eq a.namespace b.namespace && bytes_eq a.branch b.branch

-- e.loaders[key]
unfoldable pub find : BranchKey → Loaders → Option Loader
find key [] = none
find key ((k, l) ∷ loaders) = if key_eq k key then some l else find key loaders

-- e.loaders[key] = loader
unfoldable pub keep : BranchKey → Loader → Loaders → Loaders
keep key loader [] = (key, loader) ∷ []
keep key loader ((k, l) ∷ loaders) =
    let rest = keep key loader loaders in
    if key_eq k key then (key, loader) ∷ loaders else (k, l) ∷ rest

-- The loader of a branch, or a new one over an empty table.
abbrev pub loader_of : BranchKey → Option Loader → Loader
loader_of key (some l) = l
loader_of key none = new_loader new_table (record { name = key.namespace }) key.branch

module _ (codecs : Codecs) (numbers : Arithmetic) (kernels : Kernels) (ctx : Context) where
  abbrev pub kept : BranchKey → Loaders → Synced → Loaders × World
  kept key loaders s = (keep key s.loader loaders, s.world)

  -- A pass over a branch; its error is only logged.
  unfoldable pub sync_branch : BranchKey → Loaders → World → Loaders × World
  sync_branch key loaders w =
      kept key loaders (sync codecs numbers kernels ctx (loader_of key (find key loaders)) w)

  unfoldable pub sync_branches : Bytes → List Bytes → Loaders → World → Loaders × World
  sync_branches ns [] loaders w = (loaders, w)
  sync_branches ns (branch ∷ branches) loaders w =
      let (loaders', w') = sync_branch (record { namespace = ns; branch = branch }) loaders w in
      sync_branches ns branches loaders' w'

  abbrev pub listed :
      (Loaders → World → Option Error × Loaders × World)
      → Bytes
      → Loaders
      → Result (List Bytes) × World
      → Option Error × Loaders × World
  listed go ns loaders (err e, w) = (some e, loaders, w)
  listed go ns loaders (ok branches, w) =
      let (loaders', w') = sync_branches ns branches loaders w in go loaders' w'

  unfoldable pub sync_namespaces : List Bytes → Loaders → World → Option Error × Loaders × World
  sync_namespaces [] loaders w = (none, loaders, w)
  sync_namespaces (ns ∷ namespaces) loaders w =
      listed (sync_namespaces namespaces) ns loaders
        (list_branches codecs.branches ctx (record { name = ns }) w)

  abbrev pub discovered : Loaders → Result (List Bytes) × World → Option Error × Loaders × World
  discovered loaders (err e, w) = (some e, loaders, w)
  discovered loaders (ok namespaces, w) = sync_namespaces namespaces loaders w

  abbrev pub unless_done :
      Context → Loaders → World → Option Error × Loaders × World → Option Error × Loaders × World
  unless_done none loaders w r = r
  unless_done (some e) loaders w r = (some e, loaders, w)

  -- SyncOnce
  unfoldable pub sync_once : Loaders → World → Option Error × Loaders × World
  sync_once loaders w =
      unless_done ctx loaders w (discovered loaders (active_namespaces codecs.tenant_catalog ctx w))
