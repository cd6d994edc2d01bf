-- ===== src/ObjectStore/Defs.antt =====
-- objectstore/objectstore.go: what every object store speaks of, and the contexts of the calls.
use cloudy_neigh.Prelude.{
  ℕ, Bytes, Bool, true, false, Option, none, some, Error, Result, ok, err, [],
}

pub record Object : Type 0 where
  pub key : Bytes
  pub generation : Bytes
  pub size : ℕ

-- An empty `generation_match` asks for no generation.
pub record Condition : Type 0 where
  pub absent : Bool
  pub generation_match : Bytes

-- objectstore.Condition{Absent: true}, and objectstore.Condition{GenerationMatch: g}
abbrev pub if_absent : Condition
if_absent = record { absent = true; generation_match = [] }

abbrev pub if_generation : Bytes → Condition
if_generation g = record { absent = false; generation_match = g }

-- What `ctx.Err()` returns.
abbrev pub Context : Type 0
Context = Option Error

-- if err := ctx.Err(); err != nil { return err }
abbrev pub check : Context → Result (Unit {0})
check none = ok tt
check (some e) = err e
