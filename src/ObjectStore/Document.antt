-- ===== src/ObjectStore/Document.antt =====
-- Objects that hold one document: they are read with their generation, changed, and written back on
-- the condition of that generation, again and again until nobody else was faster. The packages
-- namespace and manifest each write this pattern out; its parts are here, with the codec of the
-- document (JSON) as a parameter.
pub mod Reads
pub mod Writes
pub mod Atomic
use cloudy_neigh.Prelude.{
  ℕ, zero, suc, Option, none, some, [], Bytes, is_empty, if◌then◌else◌, Error, Result, ok, err,
  is_not_found, is_precondition_failed, undecodable, unencodable, out_of_fuel,
}
use cloudy_neigh.ObjectStore.Defs.{Condition, Context, if_absent, if_generation}
use cloudy_neigh.ObjectStore.World
use cloudy_neigh.ObjectStore.World.{Io, pure, raise, lift, attempt, ◌>>=◌}

-- The two functions of the codec; each of them may refuse.
pub record Codec (A : Type 0) : Type 0 where
  pub marshal : A → Option Bytes
  pub unmarshal : Bytes → Option A

-- The condition of a write on what was read; nothing was there when the generation is empty.
abbrev pub condition_of : Bytes → Condition
condition_of gen = if is_empty gen then if_absent else if_generation gen

-- What is to be done with the document that was read: nothing but a result, or a write of another
-- one, and a result from the generation of the write.
pub data Decision (A B : Type 0) : Type 0 where
  keep : Result B → Decision A B
  replace : A → (Bytes → B) → Decision A B

module _ {A : Type 0} (codec : Codec A) (key : Bytes) (ctx : Context) where
  abbrev pub decoded : Bytes → Option A → Result (A × Bytes)
  decoded gen none = err undecodable
  decoded gen (some a) = ok (a, gen)

  -- The document and its generation.
  unfoldable pub read_document : Io (A × Bytes)
  read_document = World.get ctx key >>= λ r. lift (decoded r.1.generation (codec.unmarshal r.0))

  -- The same, where a missing object stands for a document.
  unfoldable pub read_or : A → Io (A × Bytes)
  read_or empty =
      attempt read_document pure (λ e. if is_not_found e then pure (empty, []) else raise e)

  -- The same, where a missing object is another error.
  unfoldable pub read_or_error : Error → Io (A × Bytes)
  read_or_error missing =
      attempt read_document pure (λ e. if is_not_found e then raise missing else raise e)

  abbrev pub write_encoded : Bytes → Option Bytes → Io Bytes
  write_encoded gen none = raise unencodable
  write_encoded gen (some content) = World.put ctx key content (condition_of gen)

  unfoldable pub write_document : A → Bytes → Io Bytes
  write_document a gen = write_encoded gen (codec.marshal a)

  module _ {B : Type 0} where
    unfoldable pub carry_out : Io B → Bytes → Decision A B → Io B
    carry_out again gen (keep r) = lift r
    carry_out again gen (replace a result) =
        attempt (write_document a gen) (λ g. pure (result g))
          (λ e. if is_precondition_failed e then again else raise e)

    -- The loop: read, decide, write, and once more if the condition of the write was not met.
    unfoldable pub update_loop : ℕ → Io (A × Bytes) → (A → Bytes → Decision A B) → Io B
    update_loop zero read decide = raise out_of_fuel
    update_loop (suc fuel) read decide =
        let again = update_loop fuel read decide in
        read >>= λ r. carry_out again r.1 (decide r.0 r.1)
