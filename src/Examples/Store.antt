-- ===== src/Examples/Store.antt =====
-- objectstore/ at concrete inputs.
use cloudy_neigh.Prelude.{
  ℕ, ◌≡◌, ◌^◌, ◌-◌, ◌↔◌, true, Before, refl, none, some, List, [], ◌∷◌, Bytes, codes, length, ok,
  err, panic, arith, bytes_eq, is_empty,
}
use cloudy_neigh.Prelude.Assoc
use cloudy_neigh.ObjectStore.Defs.{if_absent, if_generation}
use cloudy_neigh.ObjectStore.Generation.{local_generation, valid_local_generation}
use cloudy_neigh.ObjectStore.Mem
use cloudy_neigh.ObjectStore.Mem.{MemStore, MemEntry, new_mem_store, object_of, list_keys}
use cloudy_neigh.ObjectStore.Mem.Validity.{IsValid, IsValid-new}
use cloudy_neigh.ObjectStore.Mem.Cas.{
  Write, put_write, run_writes, run_writes-IsValid, get-put_same_generation, put-get_no_lost_update,
}
use cloudy_neigh.ObjectStore.Mem.Listing.{IsAscending, list_keys-IsAscending, member-list_keys}
use cloudy_neigh.ObjectStore.Mem.Ranges.{read_range_lem, read_range_overflow}

abbrev key_a : Bytes
key_a = codes "a"

abbrev entry_of : ℕ → Bytes → MemEntry
entry_of seq content = record {
  content = content;
  generation = local_generation seq (length content);
}

-- A store with one object.
abbrev one_object : MemStore
one_object = record { objects = (key_a, entry_of 1 (7 ∷ 8 ∷ 9 ∷ [])) ∷ []; gen_seq = 1 }

abbrev others : List Write
others = put_write none (codes "b") (5 ∷ []) if_absent ∷ []

put_one :
    Mem.put none key_a (ok (7 ∷ 8 ∷ 9 ∷ [])) if_absent new_mem_store
    ≡ ok (local_generation 1 3, one_object)
unfolding Mem.put Mem.refuses is_empty Assoc.lookup Assoc.insert
put_one = refl

get_one :
    Mem.get none key_a (run_writes others one_object)
    ≡ ok (7 ∷ 8 ∷ 9 ∷ [], object_of key_a (entry_of 1 (7 ∷ 8 ∷ 9 ∷ [])))
unfolding run_writes Mem.get Mem.put Mem.refuses is_empty Assoc.lookup Assoc.insert bytes_eq
get_one = refl

one_object-IsValid : IsValid one_object
unfolding run_writes Mem.put Mem.refuses is_empty Assoc.lookup Assoc.insert
one_object-IsValid =
    run_writes-IsValid (put_write none key_a (7 ∷ 8 ∷ 9 ∷ []) if_absent ∷ []) new_mem_store
      (omega arith) IsValid-new

run_writes-IsValid_example : IsValid (run_writes others one_object)
run_writes-IsValid_example = run_writes-IsValid others one_object (omega arith) one_object-IsValid

get-put_same_generation_example : ◌≡◌ {A = Bytes} (7 ∷ 8 ∷ 9 ∷ []) (7 ∷ 8 ∷ 9 ∷ [])
get-put_same_generation_example =
    get-put_same_generation none none key_a (7 ∷ 8 ∷ 9 ∷ []) (local_generation 1 3) if_absent
      new_mem_store one_object others (7 ∷ 8 ∷ 9 ∷ [])
      (object_of key_a (entry_of 1 (7 ∷ 8 ∷ 9 ∷ []))) IsValid-new (omega arith) put_one get_one refl

-- Behind the others' write, the client's write on the generation that it read.
put_two :
    Mem.put none key_a
      (ok (1 ∷ []))
      (if_generation (local_generation 1 3))
      (run_writes others one_object)
    ≡ ok (
      local_generation 3 1,
      record {
        objects = (key_a, entry_of 3 (1 ∷ [])) ∷ (codes "b", entry_of 2 (5 ∷ [])) ∷ [];
        gen_seq = 3;
      },
    )
unfolding run_writes Mem.put Mem.refuses is_empty Assoc.lookup Assoc.insert bytes_eq
    valid_local_generation local_generation
put_two = refl

get_before :
    Mem.get none key_a one_object
    ≡ ok (7 ∷ 8 ∷ 9 ∷ [], object_of key_a (entry_of 1 (7 ∷ 8 ∷ 9 ∷ [])))
unfolding Mem.get Assoc.lookup bytes_eq
get_before = refl

put-get_no_lost_update_example :
    (e : MemEntry) × (Assoc.lookup key_a (run_writes others one_object).objects ≡ some e)
    × (e.content ≡ 7 ∷ 8 ∷ 9 ∷ [])
put-get_no_lost_update_example =
    put-get_no_lost_update none none key_a (7 ∷ 8 ∷ 9 ∷ []) (1 ∷ []) (local_generation 3 1)
      (object_of key_a (entry_of 1 (7 ∷ 8 ∷ 9 ∷ []))) one_object
      (record {
        objects = (key_a, entry_of 3 (1 ∷ [])) ∷ (codes "b", entry_of 2 (5 ∷ [])) ∷ [];
        gen_seq = 3;
      })
      others one_object-IsValid (omega arith) get_before put_two

list_keys-IsAscending_example : IsAscending (list_keys [] [] 0 (run_writes others one_object))
list_keys-IsAscending_example =
    list_keys-IsAscending [] [] 0 (run_writes others one_object) run_writes-valid
  where
    run_writes-valid : IsValid (run_writes others one_object)
    run_writes-valid = run_writes-IsValid others one_object (omega arith) one_object-IsValid

member-list_keys_example : (Assoc.member key_a (list_keys [] [] 0 one_object) ≡ true) ↔ (
    ((e : MemEntry) × (Assoc.lookup key_a one_object.objects ≡ some e))
    × ((rest : Bytes) × (key_a ≡ rest))
    × Before [] key_a)
member-list_keys_example = member-list_keys [] [] key_a one_object

found_a : Assoc.lookup key_a one_object.objects ≡ some (entry_of 1 (7 ∷ 8 ∷ 9 ∷ []))
unfolding Assoc.lookup bytes_eq
found_a = refl

read_range_lem_example :
    Mem.read_range none key_a 1 5 one_object
    ≡ ok (8 ∷ 9 ∷ [], object_of key_a (entry_of 1 (7 ∷ 8 ∷ 9 ∷ [])))
read_range_lem_example =
    read_range_lem key_a 1 5 one_object (entry_of 1 (7 ∷ 8 ∷ 9 ∷ [])) found_a (omega arith)
      (omega arith) (omega arith) (omega arith) (omega arith)

read_range_overflow_example : Mem.read_range none key_a 1 (2 ^ 63 - 1) one_object ≡ err panic
read_range_overflow_example =
    read_range_overflow key_a 1 (2 ^ 63 - 1) one_object (entry_of 1 (7 ∷ 8 ∷ 9 ∷ [])) found_a
      (omega arith) (omega arith) (omega arith) (omega arith) (omega arith)
