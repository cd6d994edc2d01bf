-- ===== src/Namespace/Registry.antt =====
-- namespace/registry.go: the stores of the tenants. A store is of any type; none is a nil store.
-- A Go map is ranged over in an order of its own, which decides what error is returned where there are
-- several.
pub mod Stores
use cloudy_neigh.Prelude.{
  Option, none, some, List, [], ◌∷◌, Bytes, Result, ok, err, ◌>>=◌, nil_store, empty_stores,
}
use cloudy_neigh.Prelude.Assoc
use cloudy_neigh.Prelude.Assoc.{Assoc, keys}
use cloudy_neigh.ObjectStore.Mem.{sort_strings}
use cloudy_neigh.Namespace.Names.{validate_name}

module _ {ℓ} {Store : Type ℓ} where
  abbrev pub there : Option Store → Result Store
  there none = err nil_store
  there (some store) = ok store

  -- The loop of `NewRegistry`
  unfoldable pub copy_stores : Assoc (Option Store) → Result (Assoc Store)
  copy_stores [] = ok []
  copy_stores ((tenant, o) ∷ stores) = validate_name tenant >>= λ _.
      there o >>= λ store. copy_stores stores >>= λ copied. ok ((tenant, store) ∷ copied)

-- Registry
pub record Registry {ℓ} (Store : Type ℓ) : Type ℓ where
  pub stores : Assoc Store
  pub tenants : List Bytes

module _ {ℓ} {Store : Type ℓ} where
  abbrev pub with_tenants : Assoc Store → Registry Store
  with_tenants copied = record { stores = copied; tenants = sort_strings (keys copied) }

  -- NewRegistry
  unfoldable pub new_registry : Assoc (Option Store) → Result (Registry Store)
  new_registry [] = err empty_stores
  new_registry (entry ∷ stores) =
      copy_stores (entry ∷ stores) >>= λ copied. ok (with_tenants copied)

  -- Registry.Store
  unfoldable pub store : Bytes → Registry Store → Option Store
  store tenant r = Assoc.lookup tenant r.stores
