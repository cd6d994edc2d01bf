-- ===== src/Namespace/Catalog/Lookups.antt =====
-- What a lookup through the cache returns.
use cloudy_neigh.Prelude.{◌≡◌, refl, ap, ◌∙◌, Option, none, some, Bytes, Result, ok, err, arith}
use cloudy_neigh.Prelude.Assoc
use cloudy_neigh.ObjectStore.Defs.{Context}
use cloudy_neigh.ObjectStore.World.{World}
use cloudy_neigh.ObjectStore.Document.{Codec}
use cloudy_neigh.Namespace.Names.{validate_name}
use cloudy_neigh.Namespace.Catalog.{
  NamespaceMetadata, TenantCatalog, CatalogCache, lookup_namespace, lookup_valid, lookup_with,
  looked_up, refreshed, refresh, unless_deleted, found_live, lookup_cached, read_catalog_or_empty,
}

-- A namespace that is not deleted, and that the cache holds.
abbrev pub IsServed : Bytes → NamespaceMetadata → CatalogCache → Type 0
IsServed name meta c = (meta.deleted_at ≡ 0) × (lookup_cached name c ≡ some meta)

unless_deleted-ok :
    (m meta : NamespaceMetadata) → unless_deleted m ≡ ok meta → (m ≡ meta) × (m.deleted_at ≡ 0)
unless_deleted-ok m meta h = (ground arith, ground arith)

found_live-ok :
    (o : Option NamespaceMetadata) (meta : NamespaceMetadata)
    → found_live o ≡ ok meta
    → (o ≡ some meta) × (meta.deleted_at ≡ 0)
found_live-ok none meta h = cc
found_live-ok (some m) meta h =
    let (same, live) = unless_deleted-ok m meta h in (ap some same, rw (← same) live)

module _ (codec : Codec TenantCatalog) (ctx : Context) (name : Bytes)
    (meta : NamespaceMetadata) where
  looked_up-IsServed :
      (c c' : CatalogCache) (p : Result (TenantCatalog × Bytes) × World) (w' : World)
      → looked_up codec ctx name (refreshed codec ctx c p) ≡ (ok meta, c', w')
      → IsServed name meta c'
  unfolding lookup_cached
  looked_up-IsServed c c' (err e, w1) w' h = cc
  looked_up-IsServed c c' (ok (catalog, gen), w1) w' h =
      let served : found_live (Assoc.lookup name catalog.namespaces) ≡ ok meta = cc in
      let same : record { catalog = some catalog; generation = gen } ≡ c' = cc in
      let (there, live) = found_live-ok (Assoc.lookup name catalog.namespaces) meta served in
      (live, rw (← same) there)

  lookup_with-IsServed :
      (c c' : CatalogCache) (w w' : World) (o : Option NamespaceMetadata)
      → lookup_cached name c ≡ o
      → lookup_with codec ctx name o c w ≡ (ok meta, c', w')
      → IsServed name meta c'
  unfolding refresh
  lookup_with-IsServed c c' w w' (some m) e h =
      let served : unless_deleted m ≡ ok meta = cc in
      let same_cache : c ≡ c' = cc in
      let (same, live) = unless_deleted-ok m meta served in
      (rw (← same) live, rw (← same_cache) (e ∙ ap some same))
  lookup_with-IsServed c c' w w' none e h =
      looked_up-IsServed c c' (read_catalog_or_empty codec ctx w) w' h

  lookup_valid-IsServed :
      (c c' : CatalogCache) (w w' : World) (checked : Result (Unit {0}))
      → lookup_valid codec ctx name checked c w ≡ (ok meta, c', w')
      → IsServed name meta c'
  lookup_valid-IsServed c c' w w' (err e) h = cc
  lookup_valid-IsServed c c' w w' (ok tt) h =
      lookup_with-IsServed c c' w w' (lookup_cached name c) refl h

  -- `LookupNamespace` returns no deleted namespace, and what it returns is in the cache that it
  -- leaves, whether it was there before or was just read from the store.
  pub lookup_namespace-IsServed :
      (c c' : CatalogCache) (w w' : World)
      → lookup_namespace codec ctx name c w ≡ (ok meta, c', w')
      → IsServed name meta c'
  unfolding lookup_namespace
  lookup_namespace-IsServed c c' w w' h = lookup_valid-IsServed c c' w w' (validate_name name) h
