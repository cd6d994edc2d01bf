-- ===== src/Namespace/Catalog.antt =====
-- namespace/catalog.go: the namespaces of a tenant, in one object of its store, and the cache of it.
-- Next to its error the source returns a generation here and there, which no caller reads; an error
-- stands alone here.
pub mod Updates
pub mod Deletes
pub mod Lookups
use cloudy_neigh.Prelude.{
  ℕ, ◌+◌, ◌^◌, Bool, true, false, ◌==◌, leb, Option, none, some, List, [], ◌∷◌, Bytes, length,
  if◌then◌else◌, Error, Result, ok, err, is_not_found, namespace_already_exists,
  namespace_not_found, namespace_deleted, generation_mismatch, bytes_eq,
}
use cloudy_neigh.Prelude.Assoc
use cloudy_neigh.Prelude.Assoc.{Assoc}
use cloudy_neigh.ObjectStore.Defs.{Context}
use cloudy_neigh.ObjectStore.Mem.{sort_strings}
use cloudy_neigh.ObjectStore.World.{World, Io, pure, raise, lift, attempt, ◌>>=◌, ◌>>◌}
use cloudy_neigh.ObjectStore.Document.{
  Codec, Decision, keep, replace, read_document, read_or, read_or_error, update_loop,
}
use cloudy_neigh.Namespace.Names.{catalog_file, default_namespace, validate_name}

-- namespacepb.NamespaceMetadata
pub record NamespaceMetadata : Type 0 where
  pub epoch : ℕ
  pub created_at : ℕ
  pub deleted_at : ℕ

-- namespacepb.TenantCatalog; a missing map is an empty one.
pub record TenantCatalog : Type 0 where
  pub tenant : Bytes
  pub namespaces : Assoc NamespaceMetadata

abbrev pub empty_catalog : TenantCatalog
empty_catalog = record { tenant = []; namespaces = [] }

-- catalog.Namespaces[name] = meta
abbrev pub with_namespace : Bytes → NamespaceMetadata → TenantCatalog → TenantCatalog
with_namespace name meta catalog = record catalog {
  namespaces = Assoc.insert name meta catalog.namespaces;
}

-- max(now.Unix(), least), for an int64 given by its bits
abbrev pub at_least : ℕ → ℕ → ℕ
at_least least now = if leb (2 ^ 63) now then least else if leb now least then least else now

-- Enough runs of a loop: a run that another client disturbs uses up an event of the schedule.
abbrev pub tries : {A : Type 0} → (ℕ → Io A) → Io A
tries loop w = loop (length w.schedule + 1) w

-- The document of a new namespace.
abbrev pub fresh_metadata : ℕ → NamespaceMetadata
fresh_metadata created_at = record { epoch = 0; created_at = created_at; deleted_at = 0 }

abbrev pub Change : Type 0
Change = Decision TenantCatalog (NamespaceMetadata × Bytes)

-- What `CreateNamespace` does with what it found under the name.
abbrev pub create_found : Bytes → ℕ → TenantCatalog → Option NamespaceMetadata → Change
create_found name created_at catalog (some meta) = keep (err namespace_already_exists)
create_found name created_at catalog none =
    replace (with_namespace name (fresh_metadata created_at) catalog)
      (λ g. (fresh_metadata created_at, g))

abbrev pub create_step : Bytes → ℕ → TenantCatalog → Bytes → Change
create_step name created_at catalog gen =
    create_found name created_at catalog (Assoc.lookup name catalog.namespaces)

abbrev pub marked_deleted : ℕ → NamespaceMetadata → NamespaceMetadata
marked_deleted deleted_at meta = record meta { deleted_at = deleted_at }

-- What `DeleteNamespace` does with a namespace that is live, or is not.
abbrev pub delete_marked : Bytes → ℕ → TenantCatalog → Bytes → NamespaceMetadata → Bool → Change
delete_marked name deleted_at catalog gen meta true =
    replace (with_namespace name (marked_deleted deleted_at meta) catalog)
      (λ g. (marked_deleted deleted_at meta, g))
delete_marked name deleted_at catalog gen meta false = keep (ok (meta, gen))

abbrev pub delete_found : Bytes → ℕ → TenantCatalog → Bytes → Option NamespaceMetadata → Change
delete_found name deleted_at catalog gen none = keep (err namespace_not_found)
delete_found name deleted_at catalog gen (some meta) =
    delete_marked name deleted_at catalog gen meta (meta.deleted_at == 0)

abbrev pub delete_step : Bytes → ℕ → TenantCatalog → Bytes → Change
delete_step name deleted_at catalog gen =
    delete_found name deleted_at catalog gen (Assoc.lookup name catalog.namespaces)

-- The names of the namespaces that are not deleted.
unfoldable pub active_names : Assoc NamespaceMetadata → List Bytes
active_names [] = []
active_names ((name, meta) ∷ catalog) =
    let rest = active_names catalog in if meta.deleted_at == 0 then name ∷ rest else rest

abbrev pub or_default : List Bytes → List Bytes
or_default [] = default_namespace ∷ []
or_default (n ∷ ns) = sort_strings (n ∷ ns)

pub record CatalogCache : Type 0 where
  pub catalog : Option TenantCatalog
  pub generation : Bytes

-- NewCatalogCache
abbrev pub new_catalog_cache : CatalogCache
new_catalog_cache = record { catalog = none; generation = [] }

-- Invalidate
abbrev pub invalidate : CatalogCache → CatalogCache
invalidate c = record { catalog = none; generation = [] }

unfoldable pub lookup_cached : Bytes → CatalogCache → Option NamespaceMetadata
lookup_cached name c = elim c.catalog [
  | none ↦ none
  | some catalog ↦ Assoc.lookup name catalog.namespaces
]

-- A namespace that was looked up, unless it is deleted.
abbrev pub unless_deleted : NamespaceMetadata → Result NamespaceMetadata
unless_deleted meta = if meta.deleted_at == 0 then ok meta else err namespace_deleted

abbrev pub found_live : Option NamespaceMetadata → Result NamespaceMetadata
found_live none = err namespace_not_found
found_live (some meta) = unless_deleted meta

module _ (codec : Codec TenantCatalog) (ctx : Context) where
  -- ReadTenantCatalog
  unfoldable pub read_tenant_catalog : Io (TenantCatalog × Bytes)
  read_tenant_catalog = read_document codec catalog_file ctx

  -- ReadTenantCatalogIfGeneration
  unfoldable pub read_tenant_catalog_if_generation : Bytes → Io (TenantCatalog × Bytes)
  read_tenant_catalog_if_generation generation = read_tenant_catalog >>= λ r.
      if bytes_eq generation r.1 then pure r else raise generation_mismatch

  -- readCatalogOrEmpty
  unfoldable pub read_catalog_or_empty : Io (TenantCatalog × Bytes)
  read_catalog_or_empty = read_or codec catalog_file ctx empty_catalog

  -- CreateNamespace
  unfoldable pub create_namespace : Bytes → ℕ → Io (NamespaceMetadata × Bytes)
  create_namespace name now = lift (validate_name name) >>= λ _. tries (λ n.
      update_loop codec catalog_file ctx n read_catalog_or_empty
        (create_step name (at_least 0 now)))

  -- DeleteNamespace
  unfoldable pub delete_namespace : Bytes → ℕ → Io (NamespaceMetadata × Bytes)
  delete_namespace name now = lift (validate_name name) >>= λ _. tries (λ n.
      update_loop codec catalog_file ctx n
        (read_or_error codec catalog_file ctx namespace_not_found)
        (delete_step name (at_least 1 now)))

  -- ActiveNamespaces
  unfoldable pub active_namespaces : Io (List Bytes)
  active_namespaces =
      attempt read_tenant_catalog (λ r. pure (or_default (active_names r.0.namespaces)))
        (λ e. if is_not_found e then pure (default_namespace ∷ []) else raise e)

  -- What a refresh read goes into the cache.
  abbrev pub refreshed :
      CatalogCache
      → Result (TenantCatalog × Bytes) × World
      → Result TenantCatalog × CatalogCache × World
  refreshed c (ok (catalog, gen), w) =
      (ok catalog, record { catalog = some catalog; generation = gen }, w)
  refreshed c (err e, w) = (err e, c, w)

  -- CatalogCache.refresh
  unfoldable pub refresh : CatalogCache → World → Result TenantCatalog × CatalogCache × World
  refresh c w = refreshed c (read_catalog_or_empty w)

  abbrev pub looked_up :
      Bytes
      → Result TenantCatalog × CatalogCache × World
      → Result NamespaceMetadata × CatalogCache × World
  looked_up name (ok catalog, c, w) = (found_live (Assoc.lookup name catalog.namespaces), c, w)
  looked_up name (err e, c, w) = (err e, c, w)

  abbrev pub lookup_with :
      Bytes
      → Option NamespaceMetadata
      → CatalogCache
      → World
      → Result NamespaceMetadata × CatalogCache × World
  lookup_with name (some meta) c w = (unless_deleted meta, c, w)
  lookup_with name none c w = looked_up name (refresh c w)

  abbrev pub lookup_valid :
      Bytes
      → Result (Unit {0})
      → CatalogCache
      → World
      → Result NamespaceMetadata × CatalogCache × World
  lookup_valid name (err e) c w = (err e, c, w)
  lookup_valid name (ok _) c w = lookup_with name (lookup_cached name c) c w

  -- CatalogCache.LookupNamespace
  unfoldable pub lookup_namespace :
      Bytes → CatalogCache → World → Result NamespaceMetadata × CatalogCache × World
  lookup_namespace name c w = lookup_valid name (validate_name name) c w
