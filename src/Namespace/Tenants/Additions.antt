-- ===== src/Namespace/Tenants/Additions.antt =====
-- What the addition of a tenant has done.
use cloudy_neigh.Prelude.{
  ◌+◌, ◌≡◌, refl, Bool, true, false, List, [], ◌∷◌, ◌++◌, Bytes, ok, ◌⊎◌, inl, inr, length,
}
use cloudy_neigh.Prelude.Assoc.{member}
use cloudy_neigh.ObjectStore.Defs.{Context}
use cloudy_neigh.ObjectStore.World.{World}
use cloudy_neigh.ObjectStore.World.Room.{Room}
use cloudy_neigh.ObjectStore.World.Reached.{Reached, start}
use cloudy_neigh.ObjectStore.Document.{Codec, keep, replace}
use cloudy_neigh.ObjectStore.Document.Atomic.{Ended, kept, written, update_loop-Ended}
use cloudy_neigh.ObjectStore.Document.Writes.{Replaced}
use cloudy_neigh.ObjectStore.Document.Reads.{WasRead, read_or-WasRead}
use cloudy_neigh.Namespace.Names.{validate_name}
use cloudy_neigh.Namespace.Catalog.Updates.{behind_check}
use cloudy_neigh.Namespace.Tenants.{
  tenants_file, add_tenant_found, add_tenant_step, add_tenant, read_tenants_json,
}

add_tenant_found-replace :
    (tenant : Bytes) (old new : List Bytes) (b : Bool) (result : Bytes → Unit {0})
    → add_tenant_found tenant old b ≡ replace new result
    → (b ≡ false) × (new ≡ old ++ (tenant ∷ []))
add_tenant_found-replace tenant old new true result h = cc
add_tenant_found-replace tenant old new false result h = (refl, cc)

add_tenant_found-keep :
    (tenant : Bytes) (old : List Bytes) (b : Bool)
    → add_tenant_found tenant old b ≡ keep (ok tt)
    → b ≡ true
add_tenant_found-keep tenant old true h = refl
add_tenant_found-keep tenant old false h = cc

module _ (codec : Codec (List Bytes)) (ctx : Context) where
  -- The tenant was put behind a list without it, or it was in the list that was read.
  abbrev pub Added : Bytes → World → World → Type 0
  Added tenant first w =
      ((old : List Bytes) × (g : Bytes) × (member tenant old ≡ false)
        × Replaced codec tenants_file ctx [] old (old ++ (tenant ∷ [])) g first w)
      ⊎ ((old : List Bytes) × (gen : Bytes) × (member tenant old ≡ true)
          × (u : World) × Reached ctx tenants_file first u
          × WasRead codec tenants_file ctx [] old gen u w)

  add-Ended :
      (tenant : Bytes) (first w : World)
      → Ended codec tenants_file ctx [] (add_tenant_step tenant) tt first w
      → Added tenant first w
  add-Ended tenant first w (kept old gen u at_read was d) =
      inr (old, gen, add_tenant_found-keep tenant old (member tenant old) d, u, at_read, was)
  add-Ended tenant first w (written old new gen g result d same r) =
      let (missing, is_new) =
        add_tenant_found-replace tenant old new (member tenant old) result d in
      inl (old, g, missing, rw (← is_new) r)

  -- When `AddTenant` returns with no error, it has put the tenant, at one moment, behind a list of
  -- tenants without it, or it has read a list with it. The world has a well-formed store whose
  -- counter stays an int64.
  pub add_tenant_lem :
      (tenant : Bytes) (w w' : World)
      → Room w
      → add_tenant codec ctx tenant w ≡ (ok tt, w')
      → Added tenant w w'
  unfolding add_tenant read_tenants_json
  add_tenant_lem tenant w w' room h = add-Ended tenant w w' (
      update_loop-Ended codec tenants_file ctx [] (read_tenants_json codec ctx)
        (add_tenant_step tenant) (read_or-WasRead codec tenants_file ctx []) (length w.schedule + 1)
        w w w' tt start (behind_check (validate_name tenant) _ w w' tt h) room)
