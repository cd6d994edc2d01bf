-- ===== src/ObjectStore/World/Inversion.antt =====
-- What a composed action has done, if it returned a value.
use cloudy_neigh.Prelude.{◌≡◌, refl, arith, Result, ok, err, Error, ap, List}
use cloudy_neigh.ObjectStore.Mem.{MemStore}
use cloudy_neigh.ObjectStore.World.{
  World, Io, Event, Answer, answered, failed, lost, answer_call, attempt, ◌>>=◌, continue, raise,
}

module _ {A B : Type 0} where
  continue_ok :
      (f : A → Io B) (p : Result A × World) (b : B) (w' : World)
      → continue f raise p.0 p.1 ≡ (ok b, w')
      → (a : A) × (w1 : World) × (p ≡ (ok a, w1)) × (f a w1 ≡ (ok b, w'))
  continue_ok f (ok a, w1) b w' h = (a, w1, refl, h)
  continue_ok f (err e, w1) b w' h = cc

  pub bind_ok :
      (m : Io A) (f : A → Io B) (w : World) (b : B) (w' : World)
      → (m >>= f) w ≡ (ok b, w')
      → (a : A) × (w1 : World) × (m w ≡ (ok a, w1)) × (f a w1 ≡ (ok b, w'))
  unfolding attempt
  bind_ok m f w b w' h = continue_ok f (m w) b w' h

  -- The value goes on.
  pub attempt_ok :
      (m : Io A) (f : A → Io B) (g : Error → Io B) (w w1 : World) (a : A)
      → m w ≡ (ok a, w1)
      → attempt m f g w ≡ f a w1
  unfolding attempt
  attempt_ok m f g w w1 a e = ap (λ (p : Result A × World). continue f g p.0 p.1) e

-- A call that returned a value has made its operation.
pub answer_call-ok :
    {A : Type 0} (x : Answer) (op : MemStore → Result (A × MemStore)) (m : MemStore)
    (es : List Event) (a : A) (w' : World)
    → answer_call x op m es ≡ (ok a, w')
    → op m ≡ ok (a, w'.store)
answer_call-ok answered op m es a w' h = ground arith
answer_call-ok (failed e) op m es a w' h = cc
answer_call-ok (lost e) op m es a w' h = cc
