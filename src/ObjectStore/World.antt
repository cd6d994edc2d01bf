-- ===== src/ObjectStore/World.antt =====
-- A store that other clients use at the same time, over a network that fails. A client of the
-- program calls the store one operation after the other; what happens between two of its calls, and
-- whether a call is answered, is written down in a schedule, one event for each call. Behind the
-- end of the schedule nothing interferes any more.
pub mod Inversion
pub mod Room
pub mod Reached
use cloudy_neigh.Prelude.{
  ℕ, Bool, true, false, Option, none, some, List, [], ◌∷◌, Bytes, Error, Result, ok, err, length,
}
use cloudy_neigh.ObjectStore.Defs.{Object, Condition, Context}
use cloudy_neigh.ObjectStore.Mem.{MemStore}
use cloudy_neigh.ObjectStore.Mem
use cloudy_neigh.ObjectStore.Mem.Cas.{Write, run_writes}

-- What happens at a call: other clients write first, and then the call is answered, is not made
-- because of an error, or is made and its answer gets lost, so that the client sees an error.
pub data Answer : Type 0 where
  answered : Answer
  failed lost : Error → Answer

pub record Event : Type 0 where
  pub others : List Write
  pub answer : Answer

pub record World : Type 0 where
  pub store : MemStore
  pub schedule : List Event

-- An action of a client on the world.
abbrev pub Io {ℓ} : Type ℓ → Type ℓ
Io A = World → Result A × World

module _ {ℓ} {A : Type ℓ} where
  abbrev pub pure : A → Io A
  pure a w = (ok a, w)

  abbrev pub raise : Error → Io A
  raise e w = (err e, w)

  abbrev pub lift : Result A → Io A
  lift r w = (r, w)

module _ {ℓ κ} {A : Type ℓ} {B : Type κ} where
  -- Goes on with the value, or with the error, of an action.
  abbrev pub continue : (A → Io B) → (Error → Io B) → Result A → Io B
  continue f g (ok a) w = f a w
  continue f g (err e) w = g e w

  -- v, err := m; if err != nil { g err }; f v
  unfoldable pub attempt : Io A → (A → Io B) → (Error → Io B) → Io B
  attempt m f g w = let (r, w') = m w in continue f g r w'

  infixl 5 ◌>>=◌ ◌>>◌
  abbrev pub ◌>>=◌ : Io A → (A → Io B) → Io B
  m >>= f = attempt m f raise

  abbrev pub ◌>>◌ : Io A → Io B → Io B
  m >> n = m >>= λ _. n

-- The event of a call, and the schedule that is left.
abbrev pub next_event : List Event → Event × List Event
next_event [] = (record { others = []; answer = answered }, [])
next_event (e ∷ es) = (e, es)

module _ {A : Type 0} where
  abbrev pub state_of : MemStore → Result (A × MemStore) → MemStore
  state_of m (ok (a, m')) = m'
  state_of m (err e) = m

  abbrev pub value_of : Result (A × MemStore) → Result A
  value_of (ok (a, m')) = ok a
  value_of (err e) = err e

  abbrev pub answer_call :
      Answer → (MemStore → Result (A × MemStore)) → MemStore → List Event → Result A × World
  answer_call answered op m es =
      let r = op m in (value_of r, record { store = state_of m r; schedule = es })
  answer_call (failed e) op m es = (err e, record { store = m; schedule = es })
  answer_call (lost e) op m es = (err e, record { store = state_of m (op m); schedule = es })

  -- One call: the others' writes, and then the operation as the event has it.
  unfoldable pub call : (MemStore → Result (A × MemStore)) → Io A
  call op w =
      let (e, es) = next_event w.schedule in
      answer_call e.answer op (run_writes e.others w.store) es

  abbrev pub reads : (MemStore → Result A) → MemStore → Result (A × MemStore)
  reads op m = elim (op m) [ ok a ↦ ok (a, m) | err e ↦ err e ]

abbrev pub changes : (MemStore → Result MemStore) → MemStore → Result (Unit {0} × MemStore)
changes op m = elim (op m) [ ok m' ↦ ok (tt, m') | err e ↦ err e ]

-- The operations of `objectstore.Store`, as the other packages call them.
unfoldable pub get : Context → Bytes → Io (Bytes × Object)
get ctx key = call (reads (Mem.get ctx key))

unfoldable pub put : Context → Bytes → Bytes → Condition → Io Bytes
put ctx key content cond = call (Mem.put ctx key (ok content) cond)

unfoldable pub delete : Context → Bytes → Io (Unit {0})
delete ctx key = call (changes (Mem.delete ctx key))

unfoldable pub exists : Context → Bytes → Io Bool
exists ctx key = call (reads (Mem.exists ctx key))

unfoldable pub list : Context → Bytes → Bytes → ℕ → Io (List Object)
list ctx prefix start_after limit = call (reads (Mem.list ctx prefix start_after limit))
