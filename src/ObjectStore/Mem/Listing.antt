-- ===== src/ObjectStore/Mem/Listing.antt =====
-- What `List` returns: the selected keys, all of them, in order, cut off behind the limit.
use cloudy_neigh.Prelude.{
  ℕ, zero, suc, ◌≤◌, ◌≡◌, refl, ◌∙◌, ap, true, false, ◌&&◌, ◌||◌, Bytes, List, [], ◌∷◌, length,
  take, arith, bytes_eq, bytes_eq_iff, bytes_lt, bytes_lt_total, bytes_lt_trans, All, some, ◌++◌,
  ◌↔◌, has_prefix, has_prefix-append, has_prefix-rest, Before, bytes_lt_iff, length-take, take-all,
}
use cloudy_neigh.Prelude.Assoc
use cloudy_neigh.Prelude.Assoc.{member, IsUnique, keys}
use cloudy_neigh.ObjectStore.Defs.{Object}
use cloudy_neigh.ObjectStore.Mem.{
  MemStore, MemEntry, selected, select, insert_sorted, sort_strings, list_keys, objects_of,
}
use cloudy_neigh.ObjectStore.Mem.Validity.{IsValid}

-- Strictly ascending.
abbrev pub IsAscending : List Bytes → Type 0
IsAscending [] = Unit
IsAscending (k ∷ l) = All (λ j. bytes_lt k j ≡ true) l × IsAscending l

member-select :
    (p s k : Bytes) (l : List Bytes) → member k (select p s l) ≡ selected p s k && member k l
unfolding select member
member-select p s k [] = ground arith
member-select p s k (j ∷ l) = ground (arith, member-select p s k l, bytes_eq_iff j k)

select-IsUnique : (p s : Bytes) (l : List Bytes) → IsUnique l → IsUnique (select p s l)
unfolding select
select-IsUnique p s [] h = tt
select-IsUnique p s (j ∷ l) h = ground (arith, select-IsUnique p s l, member-select p s j l)

member-insert_sorted :
    (k j : Bytes) (l : List Bytes) → member k (insert_sorted j l) ≡ bytes_eq j k || member k l
unfolding insert_sorted member
member-insert_sorted k j [] = refl
member-insert_sorted k j (i ∷ l) = ground (arith, member-insert_sorted k j l)

pub member-sort_strings : (k : Bytes) (l : List Bytes) → member k (sort_strings l) ≡ member k l
unfolding sort_strings member
member-sort_strings k [] = refl
member-sort_strings k (j ∷ l) =
    member-insert_sorted k j (sort_strings l)
    ∙ ap (λ b. bytes_eq j k || b) (member-sort_strings k l)

All-insert_sorted :
    (b j : Bytes) (l : List Bytes)
    → bytes_lt b j ≡ true
    → All (λ i. bytes_lt b i ≡ true) l
    → All (λ i. bytes_lt b i ≡ true) (insert_sorted j l)
unfolding insert_sorted
All-insert_sorted b j [] h k = (h, tt)
All-insert_sorted b j (i ∷ l) h k = ground (arith, All-insert_sorted b j l h)

All-lt_trans :
    (a b : Bytes) (l : List Bytes)
    → bytes_lt a b ≡ true
    → All (λ i. bytes_lt b i ≡ true) l
    → All (λ i. bytes_lt a i ≡ true) l
All-lt_trans a b [] h k = tt
All-lt_trans a b (i ∷ l) h (k, ks) = (bytes_lt_trans a b i h k, All-lt_trans a b l h ks)

insert_sorted-IsAscending :
    (j : Bytes) (l : List Bytes)
    → member j l ≡ false
    → IsAscending l
    → IsAscending (insert_sorted j l)
unfolding insert_sorted member
insert_sorted-IsAscending j [] m h = (tt, tt)
insert_sorted-IsAscending j (i ∷ l) m h = ground (
  arith,
  insert_sorted-IsAscending j l,
  All-insert_sorted i j l,
  bytes_lt_total i j,
  All-lt_trans j i l,
)

pub sort_strings-IsAscending : (l : List Bytes) → IsUnique l → IsAscending (sort_strings l)
unfolding sort_strings
sort_strings-IsAscending [] h = tt
sort_strings-IsAscending (j ∷ l) (m, h) =
    insert_sorted-IsAscending j (sort_strings l) (member-sort_strings j l ∙ m)
      (sort_strings-IsAscending l h)

take-IsAscending : (n : ℕ) (l : List Bytes) → IsAscending l → IsAscending (take n l)
take-IsAscending zero l h = tt
take-IsAscending (suc n) [] h = tt
take-IsAscending (suc n) (k ∷ l) (a, h) = (All-take n l a, take-IsAscending n l h)
  where
    All-take :
        (n : ℕ) (l : List Bytes)
        → All (λ j. bytes_lt k j ≡ true) l
        → All (λ j. bytes_lt k j ≡ true) (take n l)
    All-take zero l a = tt
    All-take (suc n) [] a = tt
    All-take (suc n) (x ∷ l) (p, a) = (p, All-take n l a)

-- In a well-formed state, the keys that are listed stand in strictly ascending order.
pub list_keys-IsAscending :
    (p s : Bytes) (limit : ℕ) (m : MemStore) → IsValid m → IsAscending (list_keys p s limit m)
unfolding list_keys
list_keys-IsAscending p s limit m v =
    ground
      (arith, sorted, take-IsAscending limit (sort_strings (select p s (keys m.objects))) sorted)
  where
    sorted : IsAscending (sort_strings (select p s (keys m.objects)))
    sorted = sort_strings-IsAscending _ (select-IsUnique p s _ v.unique)

-- With no limit, a key is listed exactly when the store has an object of it, it is the prefix with
-- some bytes behind it, and it stands strictly behind `start_after` in the order of strings.
pub member-list_keys :
    (p s k : Bytes) (m : MemStore)
    → (member k (list_keys p s 0 m) ≡ true) ↔ (
        ((e : MemEntry) × (Assoc.lookup k m.objects ≡ some e))
        × ((rest : Bytes) × (k ≡ p ++ rest))
        × Before s k)
unfolding list_keys
member-list_keys p s k m = (listed, found)
  where
    same : member k (list_keys p s 0 m) ≡ selected p s k && member k (keys m.objects)
    same = unfold list_keys in member-sort_strings k _ ∙ member-select p s k (keys m.objects)

    listed :
        member k (list_keys p s 0 m) ≡ true
        → ((e : MemEntry) × (Assoc.lookup k m.objects ≡ some e))
          × ((rest : Bytes) × (k ≡ p ++ rest))
          × Before s k
    listed h = (
      Assoc.lookup-some_of_member k m.objects (ground (arith, same)),
      has_prefix-rest k p (ground (arith, same)),
      (bytes_lt_iff s k).0 (ground (arith, same)),
    )

    found :
        ((e : MemEntry) × (Assoc.lookup k m.objects ≡ some e))
          × ((rest : Bytes) × (k ≡ p ++ rest))
          × Before s k
        → member k (list_keys p s 0 m) ≡ true
    found ((e, at), (rest, is_k), behind) =
        let here = Assoc.member-true_of_lookup k e m.objects at in
        let prefixed : has_prefix k p ≡ true = rw is_k (has_prefix-append p rest) in
        let later = (bytes_lt_iff s k).1 behind in ground (arith, same)

-- With a limit, the listed keys are the first of those, and no more than the limit.
pub list_keys-limit :
    (p s : Bytes) (n : ℕ) (m : MemStore)
    → (list_keys p s (suc n) m ≡ take (suc n) (list_keys p s 0 m))
      × (length (list_keys p s (suc n) m) ≤ suc n)
unfolding list_keys
list_keys-limit p s n m = ground (
  arith,
  take-all (suc n) (sort_strings (select p s (keys m.objects))),
  length-take (suc n) (sort_strings (select p s (keys m.objects))),
)

abbrev pub object_keys : List Object → List Bytes
object_keys [] = []
object_keys (o ∷ os) = o.key ∷ object_keys os

pub object_keys-objects_of :
    (m : Assoc.Assoc MemEntry) (l : List Bytes) → object_keys (objects_of m l) ≡ l
unfolding objects_of
object_keys-objects_of m [] = refl
object_keys-objects_of m (k ∷ l) = ap (λ r. k ∷ r) (object_keys-objects_of m l)
