-- ===== src/ObjectStore/World/Reached.antt =====
-- The worlds on the way of a client that reads one object, and tries to write it, again and again.
use cloudy_neigh.Prelude.{◌≡◌, true, Bytes, Error, err, is_precondition_failed}
use cloudy_neigh.ObjectStore.Defs.{Context, Condition}
use cloudy_neigh.ObjectStore.World
use cloudy_neigh.ObjectStore.World.{World}

-- From the first world, by reads of the key and by writes of it whose condition was not met.
pub data Reached (ctx : Context) (key : Bytes) (first : World) : World → Type 0 where
  start : Reached ctx key first first
  read :
      (u u' : World)
      → Reached ctx key first u
      → u' ≡ (World.get ctx key u).1
      → Reached ctx key first u'
  refused :
      (u u' : World) (content : Bytes) (cond : Condition) (e : Error)
      → Reached ctx key first u
      → World.put ctx key content cond u ≡ (err e, u')
      → is_precondition_failed e ≡ true
      → Reached ctx key first u'
