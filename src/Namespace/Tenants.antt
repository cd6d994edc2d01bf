-- ===== src/Namespace/Tenants.antt =====
-- namespace/tenant.go: the list of tenants, in one object.
pub mod Additions
use cloudy_neigh.Prelude.{
  ℕ, Bool, true, false, List, [], ◌∷◌, ◌++◌, Bytes, if◌then◌else◌, Result, ok, codes,
}
use cloudy_neigh.Prelude.Assoc.{member}
use cloudy_neigh.ObjectStore.Defs.{Context}
use cloudy_neigh.ObjectStore.World.{Io, pure, lift, ◌>>=◌}
use cloudy_neigh.ObjectStore.Document.{
  Codec, Decision, keep, replace, read_or, write_document, update_loop,
}
use cloudy_neigh.Namespace.Names.{default_tenant, validate_name}
use cloudy_neigh.Namespace.Catalog.{tries}

abbrev pub tenants_file : Bytes
tenants_file = codes "tenants.json"

abbrev pub tenants_or_default : List Bytes → List Bytes
tenants_or_default [] = default_tenant ∷ []
tenants_or_default (t ∷ ts) = t ∷ ts

-- What `AddTenant` does, if the tenant was found in the list, or was not.
abbrev pub add_tenant_found : Bytes → List Bytes → Bool → Decision (List Bytes) (Unit {0})
add_tenant_found tenant tenants true = keep (ok tt)
add_tenant_found tenant tenants false = replace (tenants ++ (tenant ∷ [])) (λ _. tt)

abbrev pub add_tenant_step : Bytes → List Bytes → Bytes → Decision (List Bytes) (Unit {0})
add_tenant_step tenant tenants gen = add_tenant_found tenant tenants (member tenant tenants)

module _ (codec : Codec (List Bytes)) (ctx : Context) where
  -- ReadTenantsJSON
  unfoldable pub read_tenants_json : Io (List Bytes × Bytes)
  read_tenants_json = read_or codec tenants_file ctx []

  -- WriteTenantsJSON
  unfoldable pub write_tenants_json : List Bytes → Bytes → Io (Unit {0})
  write_tenants_json tenants gen =
      write_document codec tenants_file ctx tenants gen >>= λ _. pure tt

  -- ListTenants
  unfoldable pub list_tenants : Io (List Bytes)
  list_tenants = read_tenants_json >>= λ r. pure (tenants_or_default r.0)

  -- AddTenant
  unfoldable pub add_tenant : Bytes → Io (Unit {0})
  add_tenant tenant = lift (validate_name tenant) >>= λ _.
      tries (λ n. update_loop codec tenants_file ctx n read_tenants_json (add_tenant_step tenant))
