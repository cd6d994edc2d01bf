-- ===== src/Namespace/Catalog/Updates.antt =====
-- What the updates of a tenant's catalog have done.
use cloudy_neigh.Prelude.{
  ℕ, ◌+◌, ◌≡◌, ◌≢◌, refl, sym, ap, ◌∙◌, Option, none, some, Bytes, Result, ok, err, length,
}
use cloudy_neigh.Prelude.Assoc
use cloudy_neigh.ObjectStore.Defs.{Context}
use cloudy_neigh.ObjectStore.World.{World, Io, lift, attempt, ◌>>=◌}
use cloudy_neigh.ObjectStore.World.Room.{Room}
use cloudy_neigh.ObjectStore.World.Reached.{start}
use cloudy_neigh.ObjectStore.Document.{Codec, keep, replace}
use cloudy_neigh.ObjectStore.Document.Atomic.{Ended, kept, written, update_loop-Ended}
use cloudy_neigh.ObjectStore.Document.Writes.{Replaced}
use cloudy_neigh.ObjectStore.Document.Reads.{read_or-WasRead}
use cloudy_neigh.Namespace.Names.{catalog_file, validate_name}
use cloudy_neigh.Namespace.Catalog.{
  NamespaceMetadata, TenantCatalog, empty_catalog, with_namespace, fresh_metadata, create_found,
  create_step, at_least, create_namespace, read_catalog_or_empty,
}

-- What goes behind a check of the arguments.
pub behind_check :
    {A : Type 0} (checked : Result (Unit {0})) (go : Unit {0} → Io A) (w w' : World) (a : A)
    → (lift checked >>= go) w ≡ (ok a, w')
    → go tt w ≡ (ok a, w')
unfolding attempt
behind_check (ok tt) go w w' a h = h
behind_check (err x) go w w' a h = cc

create_found-replace :
    (name : Bytes) (at : ℕ) (old new : TenantCatalog) (o : Option NamespaceMetadata)
    (result : Bytes → NamespaceMetadata × Bytes)
    → create_found name at old o ≡ replace new result
    → (o ≡ none)
      × (new ≡ with_namespace name (fresh_metadata at) old)
      × (result ≡ (λ g. (fresh_metadata at, g)))
create_found-replace name at old new none result h = (refl, cc, cc)
create_found-replace name at old new (some meta) result h = cc

create_found-keep :
    (name : Bytes) (at : ℕ) (old : TenantCatalog) (o : Option NamespaceMetadata)
    (b : NamespaceMetadata × Bytes)
    → create_found name at old o ≢ keep (ok b)
create_found-keep name at old none b h = cc
create_found-keep name at old (some meta) b h = cc

module _ (codec : Codec TenantCatalog) (ctx : Context) where
  -- The catalog `old` was replaced by one in which the name has this document.
  abbrev pub Registered : Bytes → NamespaceMetadata → Bytes → TenantCatalog → World → World → Type 0
  Registered name meta g old first w =
      Replaced codec catalog_file ctx empty_catalog old (with_namespace name meta old) g first w

  create-Ended :
      (name : Bytes) (at : ℕ) (meta : NamespaceMetadata) (g : Bytes) (first w : World)
      → Ended codec catalog_file ctx empty_catalog (create_step name at) (meta, g) first w
      → (old : TenantCatalog) × (Assoc.lookup name old.namespaces ≡ none)
        × (meta ≡ fresh_metadata at)
        × Registered name meta g old first w
  create-Ended name at meta g first w (kept a gen u at_read was d) =
      absurd (create_found-keep name at a (Assoc.lookup name a.namespaces) (meta, g) d)
  create-Ended name at meta g first w (written old new gen g' result d same r) =
      let (missing, is_new, is_result) =
        create_found-replace name at old new (Assoc.lookup name old.namespaces) result d in
      let pair : (fresh_metadata at, g') ≡ (meta, g) =
        ap (λ (f : Bytes → NamespaceMetadata × Bytes). f g') (sym is_result) ∙ same in
      let is_meta : meta ≡ fresh_metadata at =
        ap (λ (p : NamespaceMetadata × Bytes). p.0) (sym pair) in
      let is_gen : g' ≡ g = ap (λ (p : NamespaceMetadata × Bytes). p.1) pair in
      (old, missing, is_meta, rw is_meta (rw (← is_gen) (rw (← is_new) r)))

  -- When `CreateNamespace` returns, it has replaced, at one moment, a catalog that had no namespace
  -- of the name by the same catalog with the new namespace, whatever other clients wrote to the
  -- store before that moment, and it returns the new namespace and the generation of the write. (A
  -- missing catalog counts as an empty one.) The world has a well-formed store whose counter stays
  -- an int64.
  pub create_namespace_lem :
      (name : Bytes) (now : ℕ) (w w' : World) (meta : NamespaceMetadata) (g : Bytes)
      → Room w
      → create_namespace codec ctx name now w ≡ (ok (meta, g), w')
      → (old : TenantCatalog) × (Assoc.lookup name old.namespaces ≡ none)
        × (meta ≡ fresh_metadata (at_least 0 now))
        × Registered name meta g old w w'
  unfolding create_namespace read_catalog_or_empty
  create_namespace_lem name now w w' meta g room h =
      create-Ended name (at_least 0 now) meta g w w' (
        update_loop-Ended codec catalog_file ctx empty_catalog (read_catalog_or_empty codec ctx)
          (create_step name (at_least 0 now)) (read_or-WasRead codec catalog_file ctx empty_catalog)
          (length w.schedule + 1) w w w' (meta, g) start
          (behind_check (validate_name name) _ w w' (meta, g) h) room)
