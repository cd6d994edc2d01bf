-- ===== src/Namespace/Catalog/Deletes.antt =====
-- What a deletion of a namespace has done, and what a lookup may return.
use cloudy_neigh.Prelude.{
  ℕ, ◌+◌, ◌≡◌, ◌≢◌, refl, sym, ap, ◌∙◌, none, some, true, false, Bytes, ◌==◌, ok,
  namespace_not_found, ◌⊎◌, inl, inr, arith, length, ==_iff, Option, Bool,
}
use cloudy_neigh.Prelude.Assoc
use cloudy_neigh.ObjectStore.Defs.{Context}
use cloudy_neigh.ObjectStore.World.{World}
use cloudy_neigh.ObjectStore.World.Room.{Room}
use cloudy_neigh.ObjectStore.World.Reached.{Reached, start}
use cloudy_neigh.ObjectStore.Document.{Codec, keep, replace, read_or_error}
use cloudy_neigh.ObjectStore.Document.Atomic.{Ended, kept, written, update_loop-Ended}
use cloudy_neigh.ObjectStore.Document.Reads.{WasRead, read_or_error-WasRead}
use cloudy_neigh.Namespace.Names.{catalog_file, validate_name}
use cloudy_neigh.Namespace.Catalog.{
  NamespaceMetadata, TenantCatalog, empty_catalog, with_namespace, marked_deleted, delete_marked,
  delete_found, delete_step, at_least, delete_namespace,
}
use cloudy_neigh.Namespace.Catalog.Updates.{behind_check, Registered}

-- A live namespace of the catalog is the one to mark.
abbrev pub IsLive : Bytes → NamespaceMetadata → TenantCatalog → Type 0
IsLive name meta old = (Assoc.lookup name old.namespaces ≡ some meta) × (meta.deleted_at ≡ 0)

delete_marked-replace :
    (name : Bytes) (at : ℕ) (old new : TenantCatalog) (gen : Bytes) (meta : NamespaceMetadata)
    (b : Bool) (result : Bytes → NamespaceMetadata × Bytes)
    → delete_marked name at old gen meta b ≡ replace new result
    → (b ≡ true)
      × (new ≡ with_namespace name (marked_deleted at meta) old)
      × (result ≡ (λ g. (marked_deleted at meta, g)))
delete_marked-replace name at old new gen meta true result h = (refl, cc, cc)
delete_marked-replace name at old new gen meta false result h = cc

delete_found-replace :
    (name : Bytes) (at : ℕ) (old new : TenantCatalog) (gen : Bytes) (o : Option NamespaceMetadata)
    (result : Bytes → NamespaceMetadata × Bytes)
    → delete_found name at old gen o ≡ replace new result
    → (meta : NamespaceMetadata) × ((o ≡ some meta) × (meta.deleted_at ≡ 0))
      × (new ≡ with_namespace name (marked_deleted at meta) old)
      × (result ≡ (λ g. (marked_deleted at meta, g)))
delete_found-replace name at old new gen none result h = cc
delete_found-replace name at old new gen (some meta) result h =
    let (live, is_new, is_result) =
      delete_marked-replace name at old new gen meta (meta.deleted_at == 0) result h in
    (meta, (refl, (==_iff meta.deleted_at 0).0 live), is_new, is_result)

delete_marked-keep :
    (name : Bytes) (at : ℕ) (old : TenantCatalog) (gen : Bytes) (m0 : NamespaceMetadata) (b : Bool)
    (meta : NamespaceMetadata) (g : Bytes)
    → delete_marked name at old gen m0 b ≡ keep (ok (meta, g))
    → (b ≡ false) × (m0 ≡ meta) × (gen ≡ g)
delete_marked-keep name at old gen m0 true meta g h = cc
delete_marked-keep name at old gen m0 false meta g h = (refl, cc, cc)

delete_found-keep :
    (name : Bytes) (at : ℕ) (old : TenantCatalog) (gen : Bytes) (o : Option NamespaceMetadata)
    (meta : NamespaceMetadata) (g : Bytes)
    → delete_found name at old gen o ≡ keep (ok (meta, g))
    → (o ≡ some meta) × (meta.deleted_at ≢ 0) × (gen ≡ g)
delete_found-keep name at old gen none meta g h = cc
delete_found-keep name at old gen (some m0) meta g h =
    let (gone, is_meta, is_gen) =
      delete_marked-keep name at old gen m0 (m0.deleted_at == 0) meta g h in
    (
      ap some is_meta,
      (λ z. nonzero m0.deleted_at gone (ap (λ (x : NamespaceMetadata). x.deleted_at) is_meta ∙ z)),
      is_gen,
    )
  where
    nonzero : (n : ℕ) → (n == 0) ≡ false → n ≢ 0
    nonzero n e z = ground arith

module _ (codec : Codec TenantCatalog) (ctx : Context) where
  -- The ways in which a deletion ends: the namespace was live and is marked now, or the catalog was
  -- read with a deleted namespace of the name, and is left alone.
  abbrev pub Deleted : Bytes → ℕ → NamespaceMetadata → Bytes → World → World → Type 0
  Deleted name at meta g first w =
      ((old : TenantCatalog) × (m0 : NamespaceMetadata) × IsLive name m0 old
        × (meta ≡ marked_deleted at m0)
        × Registered codec ctx name meta g old first w)
      ⊎ ((old : TenantCatalog) × (Assoc.lookup name old.namespaces ≡ some meta)
          × (meta.deleted_at ≢ 0)
          × (u : World) × Reached ctx catalog_file first u
          × WasRead codec catalog_file ctx empty_catalog old g u w)

  delete-Ended :
      (name : Bytes) (at : ℕ) (meta : NamespaceMetadata) (g : Bytes) (first w : World)
      → Ended codec catalog_file ctx empty_catalog (delete_step name at) (meta, g) first w
      → Deleted name at meta g first w
  delete-Ended name at meta g first w (kept old gen u at_read was d) =
      let (there, gone, same) =
        delete_found-keep name at old gen (Assoc.lookup name old.namespaces) meta g d in
      inr (old, there, gone, u, at_read, rw (← same) was)
  delete-Ended name at meta g first w (written old new gen g' result d same r) =
      let (m0, live, is_new, is_result) =
        delete_found-replace name at old new gen (Assoc.lookup name old.namespaces) result d in
      let pair : (marked_deleted at m0, g') ≡ (meta, g) =
        ap (λ (f : Bytes → NamespaceMetadata × Bytes). f g') (sym is_result) ∙ same in
      let is_meta : meta ≡ marked_deleted at m0 =
        ap (λ (p : NamespaceMetadata × Bytes). p.0) (sym pair) in
      let is_gen : g' ≡ g = ap (λ (p : NamespaceMetadata × Bytes). p.1) pair in
      inl (old, m0, live, is_meta, rw is_meta (rw (← is_gen) (rw (← is_new) r)))

  -- When `DeleteNamespace` returns, it has either replaced, at one moment, a catalog in which the
  -- namespace was live by the same catalog with its time of deletion, or it has read a catalog in
  -- which the namespace was deleted before, and returns that. The world has a well-formed store
  -- whose counter stays an int64.
  pub delete_namespace_lem :
      (name : Bytes) (now : ℕ) (w w' : World) (meta : NamespaceMetadata) (g : Bytes)
      → Room w
      → delete_namespace codec ctx name now w ≡ (ok (meta, g), w')
      → Deleted name (at_least 1 now) meta g w w'
  unfolding delete_namespace
  delete_namespace_lem name now w w' meta g room h =
      delete-Ended name (at_least 1 now) meta g w w' (
        update_loop-Ended codec catalog_file ctx empty_catalog
          (read_or_error codec catalog_file ctx namespace_not_found)
          (delete_step name (at_least 1 now))
          (read_or_error-WasRead codec catalog_file ctx empty_catalog namespace_not_found)
          (length w.schedule + 1) w w w' (meta, g) start
          (behind_check (validate_name name) _ w w' (meta, g) h) room)
