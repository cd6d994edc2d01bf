-- ===== src/ObjectStore/Document/Atomic.antt =====
-- The loop of reading and conditional writing acts at one moment: the document that its write
-- replaces is the document that its decision was made on.
use cloudy_neigh.Prelude.{
  ℕ, zero, suc, ◌≡◌, ◌≢◌, refl, ap, ◌∙◌, Option, none, some, true, false, Bytes, Error, Result, ok,
  err, is_precondition_failed, unencodable, ◌⊎◌, inl, inr, Bool-cases, if◌then◌else◌,
}
use cloudy_neigh.ObjectStore.Defs.{Context}
use cloudy_neigh.ObjectStore.World
use cloudy_neigh.ObjectStore.World.{
  World, Io, pure, raise, lift, attempt, continue, Event, reads, next_event, call, ◌>>=◌,
}
use cloudy_neigh.ObjectStore.World.Inversion.{bind_ok}
use cloudy_neigh.ObjectStore.World.Room.{Room, put_failed-Room}
use cloudy_neigh.ObjectStore.World.Reached.{Reached, refused}
use cloudy_neigh.ObjectStore.Document.{
  Codec, Decision, keep, replace, condition_of, write_encoded, write_document, carry_out,
  update_loop,
}
use cloudy_neigh.ObjectStore.Document.Reads.{WasRead}
use cloudy_neigh.ObjectStore.Document.Writes.{Replaced, put-Replaced}

module _ {A : Type 0} (codec : Codec A) (key : Bytes) (ctx : Context) where
  -- How a run of the loop that returned a result ended: with a decision to keep what was read, or
  -- with a write.
  pub data Ended {B : Type 0} (empty : A) (decide : A → Bytes → Decision A B) (b : B)
      (first w : World) : Type 0 where
    kept :
        (a : A) (gen : Bytes) (u : World)
        → Reached ctx key first u
        → WasRead codec key ctx empty a gen u w
        → decide a gen ≡ keep (ok b)
        → Ended empty decide b first w
    written :
        (a a' : A) (gen g : Bytes) (result : Bytes → B)
        → decide a gen ≡ replace a' result
        → result g ≡ b
        → Replaced codec key ctx empty a a' g first w
        → Ended empty decide b first w

  module _ {B : Type 0} (empty : A) (read : Io (A × Bytes)) (decide : A → Bytes → Decision A B)
      (fresh : (a : A) (gen : Bytes) (w w1 : World)
        → read w ≡ (ok (a, gen), w1)
        → Room w
        → Room w1 × WasRead codec key ctx empty a gen w w1 × (w1 ≡ (World.get ctx key w).1)) where
    write-cases :
        (a' : A) (gen : Bytes) (w : World) (r : Result Bytes) (w' : World)
        → write_document codec key ctx a' gen w ≡ (r, w')
        → ((content : Bytes) × (codec.marshal a' ≡ some content)
            × (World.put ctx key content (condition_of gen) w ≡ (r, w')))
          ⊎ ((x : Error) × (r ≡ err x) × (is_precondition_failed x ≡ false))
    unfolding write_document
    write-cases a' gen w r w' h = by_codec (codec.marshal a') refl h
      where
        by_codec :
            (o : Option Bytes)
            → codec.marshal a' ≡ o
            → write_encoded codec key ctx gen o w ≡ (r, w')
            → ((content : Bytes) × (codec.marshal a' ≡ some content)
                × (World.put ctx key content (condition_of gen) w ≡ (r, w')))
              ⊎ ((x : Error) × (r ≡ err x) × (is_precondition_failed x ≡ false))
        by_codec none e k = inr (unencodable, cc, refl)
        by_codec (some content) e k = inl (content, e, k)

    carry_out-Ended :
        (again : Io B) (d : Decision A B) (a : A) (gen : Bytes) (first u w w' : World) (b : B)
        → ((u u' : World) (c : B)
            → Reached ctx key first u
            → again u ≡ (ok c, u')
            → Room u
            → Ended empty decide c first u')
        → Reached ctx key first u
        → Reached ctx key first w
        → decide a gen ≡ d
        → Room w
        → WasRead codec key ctx empty a gen u w
        → carry_out codec key ctx again gen d w ≡ (ok b, w')
        → Ended empty decide b first w'
    unfolding carry_out attempt
    carry_out-Ended again (keep r) a gen first u w w' b ih before reached e room was h =
        let same_world : w ≡ w' = cc in
        let same_result : r ≡ ok b = cc in
        kept a gen u before (rw (← same_world) was) (e ∙ ap keep same_result)
    carry_out-Ended again (replace a' result) a gen first u w w' b ih before reached e room was h =
        by_write (write_document codec key ctx a' gen w) refl h
      where
        not_retry :
            (x y : Error)
            → ◌≡◌ {A = Result Bytes} (err x) (err y)
            → is_precondition_failed y ≡ false
            → is_precondition_failed x ≢ true
        not_retry x y same miss hit =
            let same_error : x ≡ y = cc in cc (ap is_precondition_failed same_error, miss, hit)

        by_write :
            (p : Result Bytes × World)
            → write_document codec key ctx a' gen w ≡ p
            → continue
                (λ g. pure (result g))
                (λ x. if is_precondition_failed x then again else raise x)
                p.0
                p.1
              ≡ (ok b, w')
            → Ended empty decide b first w'
        by_write (ok g, w1) k l = elim (write-cases a' gen w (ok g) w1 k) [
          | inl (content, enc, put) ↦
              let same_world : w1 ≡ w' = cc in
              let replaced : Replaced codec key ctx empty a a' g first w' = rw (← same_world) (
                put-Replaced codec key ctx empty a a' gen content g first u w w1 reached room was
                  enc put) in
              let same_result : result g ≡ b = cc in
              written a a' gen g result e same_result replaced
          | inr (x, miss, _) ↦ cc
        ]
        by_write (err x, w1) k l = elim (Bool-cases (is_precondition_failed x)) [
          | inl retry ↦
              let go : again w1 ≡ (ok b, w') = rw retry at l in
              elim (write-cases a' gen w (err x) w1 k) [
                | inl (content, enc, put) ↦
                    ih w1 w' b (refused w w1 content (condition_of gen) x reached put retry) go
                      (put_failed-Room ctx key content (condition_of gen) w w1 x room put)
                | inr (y, miss, other) ↦ absurd (not_retry x y miss other retry)
              ]
          | inr stop ↦ let miss : World.raise {A = B} x w1 ≡ (ok b, w') = rw stop at l in cc
        ]

    -- The loop acts at one moment.
    pub update_loop-Ended :
        (fuel : ℕ) (first w w' : World) (b : B)
        → Reached ctx key first w
        → update_loop codec key ctx fuel read decide w ≡ (ok b, w')
        → Room w
        → Ended empty decide b first w'
    unfolding update_loop
    update_loop-Ended zero first w w' b reached h room = cc
    update_loop-Ended (suc fuel) first w w' b reached h room =
        let again = update_loop codec key ctx fuel read decide in
        let (r, w1, got, rest) =
          bind_ok read (λ r. carry_out codec key ctx again r.1 (decide r.0 r.1)) w b w' h in
        let (room1, was, behind) = fresh r.0 r.1 w w1 got room in
        carry_out-Ended again (decide r.0 r.1) r.0 r.1 first w w1 w' b
          (λ u u' c at. update_loop-Ended fuel first u u' c at) reached
          (Reached.read w w1 reached behind) refl room1 was rest
