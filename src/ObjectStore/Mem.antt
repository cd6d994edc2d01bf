-- ===== src/ObjectStore/Mem.antt =====
-- objectstore/mem.go: the store in memory. Every method holds the mutex from its first look at the
-- state to its return, so that a method is one step from a state to the next.
pub mod Validity
pub mod Cas
pub mod Listing
pub mod Ranges
use cloudy_neigh.Prelude.{
  ℕ, ◌+◌, ◌-◌, ◌%◌, ◌^◌, Bool, true, false, ◌&&◌, ◌||◌, not, Option, none, some, List, [], ◌∷◌,
  Bytes, is_empty, bytes_eq, bytes_lt, has_prefix, ltb, leb, if◌then◌else◌, length, take, drop,
  Error, Result, ok, err, ◌>>=◌, ◌>>◌, guard, not_found, precondition_failed, malformed_generation,
  invalid_range, offset_exceeds_size, panic,
}
use cloudy_neigh.Prelude.Assoc
use cloudy_neigh.Prelude.Assoc.{Assoc, keys}
use cloudy_neigh.ObjectStore.Defs.{Object, Condition, Context, check}
use cloudy_neigh.ObjectStore.Generation.{local_generation, valid_local_generation}

pub record MemEntry : Type 0 where
  pub content : Bytes
  pub generation : Bytes

pub record MemStore : Type 0 where
  pub objects : Assoc MemEntry
  pub gen_seq : ℕ

-- newMemStore
abbrev pub new_mem_store : MemStore
new_mem_store = record { objects = []; gen_seq = 0 }

-- The zero value of a map's missing entry.
abbrev pub entry_or_zero : Option MemEntry → MemEntry
entry_or_zero none = record { content = []; generation = [] }
entry_or_zero (some e) = e

abbrev pub object_of : Bytes → MemEntry → Object
object_of key e = record { key = key; generation = e.generation; size = length e.content }

abbrev pub found : Option MemEntry → Result MemEntry
found none = err not_found
found (some e) = ok e

unfoldable pub stat : Context → Bytes → MemStore → Result Object
stat ctx key m = do check ctx; e ← found (Assoc.lookup key m.objects); ok (object_of key e)

-- The reader that `Get` returns, as the bytes that it gives.
unfoldable pub get : Context → Bytes → MemStore → Result (Bytes × Object)
get ctx key m = do
  check ctx
  e ← found (Assoc.lookup key m.objects)
  ok (e.content, object_of key e)

-- An int64 is given by its bits: it is negative from 2 ^ 63 on.
abbrev pub is_negative : ℕ → Bool
is_negative n = leb (2 ^ 63) n

-- b > a on int64
abbrev pub signed_gt : ℕ → ℕ → Bool
signed_gt b a = ltb ((a + 2 ^ 63) % 2 ^ 64) ((b + 2 ^ 63) % 2 ^ 64)

-- data[offset:end], with the panic of Go for bounds out of range
abbrev pub slice : Bytes → ℕ → ℕ → Result Bytes
slice content offset end = do
  guard (not (is_negative end) && leb offset end && leb end (length content)) panic
  ok (take (end - offset) (drop offset content))

unfoldable pub read_range : Context → Bytes → ℕ → ℕ → MemStore → Result (Bytes × Object)
read_range ctx key offset len m = do
  check ctx
  guard (not (is_negative offset || is_negative len)) invalid_range
  e ← found (Assoc.lookup key m.objects)
  let size = length e.content
  guard (not (signed_gt offset size)) offset_exceeds_size
  let sum = (offset + len) % 2 ^ 64
  let end = if signed_gt sum size then size else sum
  part ← slice e.content offset end
  ok (part, object_of key e)

abbrev pub is_some : Option MemEntry → Bool
is_some none = false
is_some (some e) = true

unfoldable pub exists : Context → Bytes → MemStore → Result Bool
exists ctx key m = do check ctx; ok (is_some (Assoc.lookup key m.objects))

unfoldable pub delete : Context → Bytes → MemStore → Result MemStore
delete ctx key m = do
  check ctx
  _ ← found (Assoc.lookup key m.objects)
  ok (record m { objects = Assoc.delete key m.objects })

-- The two tests of a condition, on what the key holds: whether `Put` refuses it.
unfoldable pub refuses : Condition → Option MemEntry → Bool
refuses cond e =
    if cond.absent
    then is_some e
    else if not (is_empty cond.generation_match)
    then not (is_some e) || not (bytes_eq (entry_or_zero e).generation cond.generation_match)
    else false

-- The `body` is what `io.ReadAll(r)` returns. The new state, with the generation that was written.
unfoldable pub put :
    Context → Bytes → Result Bytes → Condition → MemStore → Result (Bytes × MemStore)
put ctx key body cond m = do
  check ctx
  guard (is_empty cond.generation_match || valid_local_generation cond.generation_match)
      malformed_generation
  content ← body
  guard (not (refuses cond (Assoc.lookup key m.objects))) precondition_failed
  let seq = (m.gen_seq + 1) % 2 ^ 64
  let gen = local_generation seq (length content)
  let e : MemEntry = record { content = content; generation = gen }
  ok (gen, record { objects = Assoc.insert key e m.objects; gen_seq = seq })

-- strings.HasPrefix(k, prefix) && k > startAfter
abbrev pub selected : Bytes → Bytes → Bytes → Bool
selected prefix start_after k = has_prefix k prefix && bytes_lt start_after k

unfoldable pub select : Bytes → Bytes → List Bytes → List Bytes
select prefix start_after [] = []
select prefix start_after (k ∷ ks) =
    let rest = select prefix start_after ks in
    if selected prefix start_after k then k ∷ rest else rest

-- sort.Strings
unfoldable pub insert_sorted : Bytes → List Bytes → List Bytes
insert_sorted k [] = k ∷ []
insert_sorted k (j ∷ l) = if bytes_lt j k then j ∷ insert_sorted k l else k ∷ j ∷ l

unfoldable pub sort_strings : List Bytes → List Bytes
unfolding insert_sorted
sort_strings [] = []
sort_strings (k ∷ l) = insert_sorted k (sort_strings l)

-- if limit > 0 && len(keys) > limit { keys = keys[:limit] }
abbrev pub cut_off : ℕ → List Bytes → List Bytes
cut_off limit l = if ltb 0 limit && ltb limit (length l) then take limit l else l

unfoldable pub objects_of : Assoc MemEntry → List Bytes → List Object
objects_of m [] = []
objects_of m (k ∷ ks) = object_of k (entry_or_zero (Assoc.lookup k m)) ∷ objects_of m ks

-- The keys that `List` returns the objects of.
unfoldable pub list_keys : Bytes → Bytes → ℕ → MemStore → List Bytes
unfolding select sort_strings
list_keys prefix start_after limit m =
    cut_off limit (sort_strings (select prefix start_after (keys m.objects)))

unfoldable pub list : Context → Bytes → Bytes → ℕ → MemStore → Result (List Object)
unfolding list_keys objects_of
list ctx prefix start_after limit m = do
  check ctx
  ok (objects_of m.objects (list_keys prefix start_after limit m))
