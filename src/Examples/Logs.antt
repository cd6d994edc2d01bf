-- ===== src/Examples/Logs.antt =====
-- logstream/ and namespace/ at concrete inputs.
use cloudy_neigh.Prelude.{ℕ, ◌≡◌, refl, none, List, [], ◌∷◌, Bytes, codes, arith, ok, leb, Bool}
use cloudy_neigh.Prelude
use cloudy_neigh.Prelude.Assoc
use cloudy_neigh.ObjectStore.Mem.{new_mem_store}
use cloudy_neigh.ObjectStore.World.{World, Io}
use cloudy_neigh.LogStream.Keys.{segment_key, parse_seq}
use cloudy_neigh.LogStream.Keys.Format.{parse_seq-segment_key}
use cloudy_neigh.LogStream.Jump.{jump}
use cloudy_neigh.LogStream.Jump.Head.{jump_lem, Finds}
use cloudy_neigh.LogStream.Log.{Log, append, read}
use cloudy_neigh.LogStream.Log.Batch.{read-append}
use cloudy_neigh.LogStream.Log.Calm.{append-calm, calm}
use cloudy_neigh.Namespace.Names
use cloudy_neigh.Namespace.Names.{validate_name}
use cloudy_neigh.Namespace.Names.Keys.{IsName, IsName-IsPlain, path_of-injective}
use cloudy_neigh.Namespace.Paths.{clean, join}
use cloudy_neigh.Namespace.Paths.Plain.{IsPlain}

-- Two records of a batch.
abbrev batch : List Bytes
batch = (1 ∷ 2 ∷ []) ∷ [] ∷ []

abbrev a_log : Log
a_log = record { prefix = codes "wal"; last_known = 1 }

abbrev Appended : Type 0
Appended =
    (log' : Log) × (w' : World) × (append none batch a_log (calm new_mem_store) ≡ (ok 2, log', w'))
    × (log'.last_known ≡ 2)
    × ((read none 2 a_log (calm w'.store)).0 ≡ ok batch)

append-calm_example : Appended
unfolding Assoc.lookup
append-calm_example =
    append-calm (1 ∷ 2 ∷ []) ([] ∷ []) a_log new_mem_store (omega arith, (omega arith, tt))
      (omega arith) (omega arith) refl

abbrev did : Appended
did = append-calm_example

read-append_example : (read none 2 a_log (calm did.1.store)).0 ≡ ok batch
read-append_example =
    read-append none batch a_log did.0 (calm new_mem_store) did.1 2 (omega arith, (omega arith, tt))
      did.2 (omega arith)

-- A log that has the numbers up to 5.
abbrev up_to_five : ℕ → Bool
up_to_five n = leb n 5

abbrev probe_five : ℕ → Io Bool
probe_five n w = (ok (up_to_five n), w)

jump_lem_example :
    Finds probe_five
      (calm new_mem_store)
      up_to_five
      (λ n. refl)
      2
      (jump probe_five 2 (calm new_mem_store))
jump_lem_example =
    jump_lem probe_five (calm new_mem_store) up_to_five (λ n. refl) 2 (omega arith) refl

parse_seq-segment_key_example : parse_seq (segment_key (codes "ns/default/wal") 42) ≡ ok 42
parse_seq-segment_key_example =
    parse_seq-segment_key (codes "ns/default/wal") 42 (omega arith) (omega arith)

abbrev a_scope : Names.Scope
a_scope = record { name = codes "ab" }

a_scope-IsName : IsName (codes "ab")
unfolding validate_name
a_scope-IsName = refl

-- The name is a plain element, too.
ab-IsPlain : IsPlain (codes "ab")
ab-IsPlain = IsName-IsPlain (codes "ab") a_scope-IsName

path_of-injective_example :
    (codes "ab" ≡ codes "ab") × (codes "ab" ∷ codes "ab" ∷ [] ≡ codes "ab" ∷ codes "ab" ∷ [])
path_of-injective_example =
    path_of-injective a_scope a_scope (codes "ab") (codes "ab") (codes "ab" ∷ []) (codes "ab" ∷ [])
      a_scope-IsName a_scope-IsName (ab-IsPlain, (ab-IsPlain, tt)) (ab-IsPlain, (ab-IsPlain, tt))
      refl

-- The paths that a key loses nothing of, and others.
cleans : clean (codes "ns/a/../b//./wal/") ≡ codes "ns/b/wal"
unfolding clean Prelude.bytes_eq
cleans = refl

climbs : join (codes "../a") (codes "../../b") ≡ codes "../../b"
unfolding join Prelude.bytes_eq
climbs = refl

no_further_up : clean (codes "/../a") ≡ codes "/a"
unfolding clean Prelude.bytes_eq
no_further_up = refl

stays_here : clean [] ≡ codes "."
unfolding clean Prelude.bytes_eq
stays_here = refl
