-- ===== src/Examples/Catalogs.antt =====
-- namespace/ and manifest/ at concrete inputs, with a codec that writes how many entries there are.
use cloudy_neigh.Prelude.{
  ◌≡◌, refl, none, some, List, [], ◌∷◌, Bytes, codes, length, arith, ok, is_empty, bytes_eq,
}
use cloudy_neigh.Prelude.Assoc
use cloudy_neigh.ObjectStore.Generation.{local_generation, valid_local_generation}
use cloudy_neigh.ObjectStore.Mem
use cloudy_neigh.ObjectStore.Mem.{MemStore, new_mem_store}
use cloudy_neigh.ObjectStore.Mem.Validity.{IsValid, IsValid-new}
use cloudy_neigh.ObjectStore.Mem.Cas.{run_writes, put_write, run_writes-IsValid}
use cloudy_neigh.ObjectStore.Defs.{if_absent}
use cloudy_neigh.ObjectStore.World
use cloudy_neigh.ObjectStore.World.{World, attempt, answered}
use cloudy_neigh.ObjectStore.World.Room.{Room}
use cloudy_neigh.ObjectStore.Document.{
  Codec, read_document, read_or, read_or_error, write_document, carry_out, update_loop,
}
use cloudy_neigh.Namespace.Names.{Scope, catalog_file, validate_name}
use cloudy_neigh.Namespace.Catalog.{
  TenantCatalog, NamespaceMetadata, fresh_metadata, create_namespace, read_catalog_or_empty,
  delete_namespace, CatalogCache, new_catalog_cache, refresh, lookup_namespace, lookup_cached,
  at_least,
}
use cloudy_neigh.Namespace.Catalog.Updates.{Registered, create_namespace_lem}
use cloudy_neigh.Namespace.Catalog.Deletes.{Deleted, delete_namespace_lem}
use cloudy_neigh.ObjectStore.Document.Writes.{Rewritten}
use cloudy_neigh.Manifest
use cloudy_neigh.Manifest.{BranchManifest}
use cloudy_neigh.Manifest.Swaps.{write-read}
use cloudy_neigh.Namespace.Branches.{BranchCatalog, added, update_branches, read_branch_catalog}
use cloudy_neigh.Namespace.Branches.Changes.{Updated, update_branches_lem}
use cloudy_neigh.Namespace.Tenants.{add_tenant, read_tenants_json}

abbrev name_a : Bytes
name_a = codes "a"

abbrev a_catalog : TenantCatalog
a_catalog = record { tenant = []; namespaces = (name_a, fresh_metadata 7) ∷ [] }

-- Every object is read as `a_catalog`.
abbrev a_codec : Codec TenantCatalog
a_codec = record { marshal = λ c. some (length c.namespaces ∷ []); unmarshal = λ _. some a_catalog }

abbrev start : World
start = record { store = new_mem_store; schedule = [] }

start-Room : Room start
start-Room = (IsValid-new, omega arith)

-- Behind the creation of the namespace.
abbrev created : World
created = (create_namespace a_codec none name_a 7 start).1

create_run :
    create_namespace a_codec none name_a 7 start
    ≡ (ok (fresh_metadata 7, local_generation 1 1), created)
unfolding create_namespace read_catalog_or_empty validate_name attempt read_or read_document
    write_document carry_out update_loop World.get World.put World.call run_writes Mem.get Mem.put
    Mem.refuses is_empty Assoc.lookup Assoc.insert
create_run = refl

create_namespace_lem_example :
    (old : TenantCatalog) × (Assoc.lookup name_a old.namespaces ≡ none)
    × (fresh_metadata 7 ≡ fresh_metadata (at_least 0 7))
    × Registered a_codec none name_a (fresh_metadata 7) (local_generation 1 1) old start created
create_namespace_lem_example =
    create_namespace_lem a_codec none name_a 7 start created (fresh_metadata 7)
      (local_generation 1 1) start-Room create_run

-- A store that holds a catalog, in a world in which another client writes first.
abbrev stored : MemStore
stored = run_writes (put_write none catalog_file (1 ∷ []) if_absent ∷ []) new_mem_store

abbrev later : World
later = record {
  store = stored;
  schedule =
      record { others = put_write none (codes "x") [] if_absent ∷ []; answer = answered } ∷ [];
}

stored-IsValid : IsValid stored
stored-IsValid =
    run_writes-IsValid (put_write none catalog_file (1 ∷ []) if_absent ∷ []) new_mem_store
      (omega arith) IsValid-new

later-Room : Room later
unfolding run_writes Mem.put Mem.refuses is_empty Assoc.lookup Assoc.insert
later-Room = (stored-IsValid, omega arith)

abbrev ended : World
ended = (delete_namespace a_codec none name_a 9 later).1

abbrev deleted_a : NamespaceMetadata
deleted_a = record { epoch = 0; created_at = 7; deleted_at = 9 }

delete_run :
    delete_namespace a_codec none name_a 9 later ≡ (ok (deleted_a, local_generation 3 1), ended)
unfolding delete_namespace validate_name attempt read_or_error read_document write_document
    carry_out update_loop World.get World.put World.call run_writes Mem.get Mem.put Mem.refuses
    is_empty Assoc.lookup Assoc.insert bytes_eq valid_local_generation local_generation
delete_run = refl

delete_namespace_lem_example :
    Deleted a_codec none name_a (at_least 1 9) deleted_a (local_generation 3 1) later ended
delete_namespace_lem_example =
    delete_namespace_lem a_codec none name_a 9 later ended deleted_a (local_generation 3 1)
      later-Room delete_run

-- A lookup that reads the catalog into an empty cache.
abbrev full_cache : CatalogCache
full_cache = record { catalog = some a_catalog; generation = local_generation 1 1 }

abbrev looked : World
looked = (lookup_namespace a_codec none name_a new_catalog_cache later).2

lookup_run :
    lookup_namespace a_codec none name_a new_catalog_cache later
    ≡ (ok (fresh_metadata 7), full_cache, looked)
unfolding lookup_namespace lookup_cached refresh read_catalog_or_empty validate_name attempt read_or
    read_document World.get World.call run_writes Mem.get Mem.put Mem.refuses is_empty Assoc.lookup
    Assoc.insert bytes_eq
lookup_run = refl

abbrev a_scope : Scope
a_scope = record { name = name_a }

-- Every object is read as no branches.
abbrev branch_codec : Codec BranchCatalog
branch_codec = record { marshal = λ b. some (length b ∷ []); unmarshal = λ _. some [] }

abbrev with_branch : World
with_branch = (update_branches branch_codec none a_scope (added (codes "dev")) start).1

branch_run :
    update_branches branch_codec none a_scope (added (codes "dev")) start ≡ (ok tt, with_branch)
unfolding update_branches read_branch_catalog attempt read_or read_document write_document carry_out
    update_loop World.get World.put World.call run_writes Mem.get Mem.put Mem.refuses is_empty
    Assoc.lookup Assoc.insert
branch_run = refl

update_branches_lem_example :
    Updated branch_codec none a_scope (added (codes "dev")) start with_branch
update_branches_lem_example =
    update_branches_lem branch_codec none a_scope (added (codes "dev")) start with_branch start-Room
      branch_run

-- Every object is read as no tenants.
abbrev tenant_codec : Codec (List Bytes)
tenant_codec = record { marshal = λ t. some (length t ∷ []); unmarshal = λ _. some [] }

abbrev with_tenant : World
with_tenant = (add_tenant tenant_codec none name_a start).1

tenant_run : add_tenant tenant_codec none name_a start ≡ (ok tt, with_tenant)
unfolding add_tenant read_tenants_json validate_name attempt read_or read_document write_document
    carry_out update_loop World.get World.put World.call run_writes Mem.get Mem.put Mem.refuses
    is_empty Assoc.lookup Assoc.insert Assoc.member
tenant_run = refl

abbrev a_manifest : BranchManifest
a_manifest = record { checkpoint_seq = 4; schema_version = 1; segments = [] }

-- Every object is read as `a_manifest`.
abbrev manifest_codec : Codec BranchManifest
manifest_codec = record {
  marshal = λ m. some (m.checkpoint_seq ∷ []);
  unmarshal = λ _. some a_manifest;
}

abbrev next_manifest : BranchManifest
next_manifest = record { checkpoint_seq = 5; schema_version = 1; segments = [] }

abbrev read_world : World
read_world = (Manifest.read manifest_codec none catalog_file later).1

abbrev write_world : World
write_world =
    (Manifest.write manifest_codec none catalog_file (some next_manifest) (local_generation 1 1)
      read_world).1

read_run :
    Manifest.read manifest_codec none catalog_file later
    ≡ (ok (a_manifest, local_generation 1 1), read_world)
unfolding Manifest.read attempt read_document World.get World.call run_writes Mem.get Mem.put
    Mem.refuses is_empty Assoc.lookup Assoc.insert bytes_eq
read_run = refl

write_run :
    Manifest.write manifest_codec none catalog_file
      (some next_manifest)
      (local_generation 1 1)
      read_world
    ≡ (ok (local_generation 3 1), write_world)
unfolding Manifest.write Manifest.read attempt read_document write_document World.get World.put
    World.call run_writes Mem.get Mem.put Mem.refuses is_empty Assoc.lookup Assoc.insert bytes_eq
    valid_local_generation local_generation
write_run = refl

write-read_example :
    Rewritten manifest_codec catalog_file none a_manifest next_manifest
      (local_generation 3 1)
      read_world
      write_world
write-read_example =
    write-read manifest_codec none catalog_file a_manifest next_manifest (local_generation 1 1)
      (local_generation 3 1) later read_world write_world later-Room read_run write_run
