-- ===== src/Examples/Registries.antt =====
-- namespace/registry.go at a concrete input.
use cloudy_neigh.Prelude.{ℕ, ◌≡◌, refl, Option, some, [], ◌∷◌, codes, ok, Bytes}
use cloudy_neigh.Namespace.Names
use cloudy_neigh.ObjectStore.Mem
use cloudy_neigh.Prelude
use cloudy_neigh.Prelude.Assoc
use cloudy_neigh.Prelude.Assoc.{Assoc, keys, IsUnique}
use cloudy_neigh.Namespace.Registry
use cloudy_neigh.Namespace.Registry.{Registry, with_tenants, new_registry}
use cloudy_neigh.Namespace.Registry.Stores.{Serves, new_registry-Serves}

-- Two tenants, whose stores are numbers.
abbrev stores : Assoc (Option ℕ)
stores = (codes "beta", some 2) ∷ (codes "alpha", some 1) ∷ []

abbrev registry : Registry ℕ
registry = with_tenants ((codes "beta", 2) ∷ (codes "alpha", 1) ∷ [])

registry_run : new_registry stores ≡ ok registry
unfolding new_registry Registry.copy_stores Names.validate_name
registry_run = refl

in_order : registry.tenants ≡ codes "alpha" ∷ codes "beta" ∷ []
unfolding Mem.sort_strings Prelude.bytes_lt
in_order = refl

stores-IsUnique : IsUnique (keys stores)
unfolding Assoc.member Prelude.bytes_eq
stores-IsUnique = (refl, (refl, tt))

new_registry-Serves_example : Serves stores registry
new_registry-Serves_example = new_registry-Serves stores registry stores-IsUnique registry_run
