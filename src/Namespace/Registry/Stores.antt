-- ===== src/Namespace/Registry/Stores.antt =====
-- A registry serves the stores that it was made of, under valid names in order.
use cloudy_neigh.Prelude.{
  ◌≡◌, refl, ap, ◌∙◌, Option, none, some, [], ◌∷◌, Bytes, bytes_eq, if◌then◌else◌, Result, ok, err,
  ◌>>=◌, Bool, true, false, All,
}
use cloudy_neigh.Prelude.Assoc
use cloudy_neigh.Prelude.Assoc.{Assoc, keys, IsUnique, member}
use cloudy_neigh.ObjectStore.Mem.Listing.{
  IsAscending, sort_strings-IsAscending, member-sort_strings,
}
use cloudy_neigh.Namespace.Names.{validate_name}
use cloudy_neigh.Namespace.Registry.{
  Registry, there, copy_stores, with_tenants, new_registry, store,
}

module _ {ℓ} {Store : Type ℓ} where
  -- The copy has the entries of the map, none of them nil, under valid names.
  pub record Copied (stores : Assoc (Option Store)) (copied : Assoc Store) : Type ℓ where
    pub same_keys : keys copied ≡ keys stores
    pub valid : All (λ t. validate_name t ≡ ok tt) (keys stores)
    pub found :
        (t : Bytes) (s : Store)
        → Assoc.lookup t stores ≡ some (some s)
        → Assoc.lookup t copied ≡ some s

  Copied-none : Copied [] []
  unfolding Assoc.lookup
  Copied-none = record { same_keys = refl; valid = tt; found = λ t s e. cc }

  Copied-more :
      (t : Bytes) (s : Store) (stores : Assoc (Option Store)) (copied : Assoc Store)
      → validate_name t ≡ ok tt
      → Copied stores copied
      → Copied ((t, some s) ∷ stores) ((t, s) ∷ copied)
  unfolding Assoc.lookup
  Copied-more t s stores copied name_run c = record {
    same_keys = ap (λ l. t ∷ l) c.same_keys;
    valid = (name_run, c.valid);
    found = λ t' s' e. by_key t' s' (bytes_eq t t') e;
  }
    where
      by_key :
          (t' : Bytes) (s' : Store) (b : Bool)
          → (if b then some (some s) else Assoc.lookup t' stores) ≡ some (some s')
          → (if b then some s else Assoc.lookup t' copied) ≡ some s'
      by_key t' s' true e = cc
      by_key t' s' false e = c.found t' s' e

  copy_stores-Copied :
      (stores : Assoc (Option Store)) (copied : Assoc Store)
      → copy_stores stores ≡ ok copied
      → Copied stores copied
  unfolding copy_stores Assoc.lookup
  copy_stores-Copied [] copied e = let same : copied ≡ [] = cc in rw same Copied-none
  copy_stores-Copied ((t, o) ∷ stores) copied e =
      by_name (λ c run. copy_stores-Copied stores c run) (validate_name t) o (copy_stores stores)
        refl refl refl e
    where
      by_name :
          ((c : Assoc Store) → copy_stores stores ≡ ok c → Copied stores c)
          → (v : Result (Unit {0})) (o' : Option Store) (r : Result (Assoc Store))
          → validate_name t ≡ v
          → o ≡ o'
          → copy_stores stores ≡ r
          → (v >>= λ _. there o' >>= λ s. r >>= λ c. ok ((t, s) ∷ c)) ≡ ok copied
          → Copied ((t, o) ∷ stores) copied
      by_name go (err x) o' r name_run o_eq run e' = cc
      by_name go (ok u) none r name_run o_eq run e' = cc
      by_name go (ok u) (some s) (err x) name_run o_eq run e' = cc
      by_name go (ok u) (some s) (ok c) name_run o_eq run e' =
          let same : copied ≡ (t, s) ∷ c = cc in
          rw same (rw o_eq (Copied-more t s stores c name_run (go c run)))

  -- What a registry made of a map with no key twice is.
  pub record Serves (stores : Assoc (Option Store)) (r : Registry Store) : Type ℓ where
    pub ascending : IsAscending r.tenants
    pub listed : (t : Bytes) → member t r.tenants ≡ member t (keys stores)
    pub valid : All (λ t. validate_name t ≡ ok tt) (keys stores)
    pub served :
        (t : Bytes) (s : Store) → Assoc.lookup t stores ≡ some (some s) → store t r ≡ some s

  with_tenants-Serves :
      (stores : Assoc (Option Store)) (copied : Assoc Store)
      → IsUnique (keys stores)
      → Copied stores copied
      → Serves stores (with_tenants copied)
  unfolding store
  with_tenants-Serves stores copied unique c = record {
    ascending = sort_strings-IsAscending (keys copied) (rw c.same_keys unique);
    listed = λ t. member-sort_strings t (keys copied) ∙ ap (member t) c.same_keys;
    valid = c.valid;
    served = c.found;
  }

  -- A registry made of a map with no key twice lists the keys of the map in strictly ascending order, each
  -- of them a valid name, and serves under each the store of the map.
  pub new_registry-Serves :
      (stores : Assoc (Option Store)) (r : Registry Store)
      → IsUnique (keys stores)
      → new_registry stores ≡ ok r
      → Serves stores r
  unfolding new_registry
  new_registry-Serves [] r unique e = cc
  new_registry-Serves (entry ∷ stores) r unique e = by_copy (copy_stores (entry ∷ stores)) refl e
    where
      by_copy :
          (p : Result (Assoc Store))
          → copy_stores (entry ∷ stores) ≡ p
          → (p >>= λ copied. ok (with_tenants copied)) ≡ ok r
          → Serves (entry ∷ stores) r
      by_copy (err x) run e' = cc
      by_copy (ok copied) run e' =
          let same : r ≡ with_tenants copied = cc in
          rw same (
            with_tenants-Serves (entry ∷ stores) copied unique
              (copy_stores-Copied (entry ∷ stores) copied run))
