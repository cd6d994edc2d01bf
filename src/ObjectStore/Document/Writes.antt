-- ===== src/ObjectStore/Document/Writes.antt =====
-- What a write of a document on the condition of its generation has done.
use cloudy_neigh.Prelude.{
  ◌≡◌, refl, ap, ◌∙◌, Option, none, some, false, [], ◌∷◌, Bytes, is_empty, ok, arith, ◌⊎◌, inl, inr,
  List, length, ◌≤◌,
}
use cloudy_neigh.Prelude.Assoc
use cloudy_neigh.ObjectStore.Defs.{Context, if_absent, if_generation}
use cloudy_neigh.ObjectStore.Mem
use cloudy_neigh.ObjectStore.Mem.{MemStore, MemEntry, refuses, is_some}
use cloudy_neigh.ObjectStore.Mem.Validity.{IsValid-Taken, Taken-nonempty, put_lem}
use cloudy_neigh.ObjectStore.Mem.Cas.{put-get_no_lost_update, get_found}
use cloudy_neigh.ObjectStore.World
use cloudy_neigh.ObjectStore.World.{
  World, Io, pure, raise, lift, attempt, continue, Event, reads, next_event, call, ◌>>=◌,
}
use cloudy_neigh.ObjectStore.World.Room.{Room, put_call-ok, put-schedule, state_at_call, weight}
use cloudy_neigh.ObjectStore.World.Reached.{Reached}
use cloudy_neigh.ObjectStore.Document.{Codec, condition_of, write_encoded, write_document}
use cloudy_neigh.ObjectStore.Document.Reads.{Holds, Lacks, Found, WasRead}

others-weight : (es : List Event) → length (next_event es).0.others ≤ weight es
others-weight [] = omega arith
others-weight (e ∷ es) = omega arith

module _ {A : Type 0} (codec : Codec A) (key : Bytes) (ctx : Context) where
  -- A write of the document `new` has been made on a state that held `old`, or that had no object
  -- while `old` is `empty`.
  -- The write was made in the world `at`, which the client has reached from `first` by reads of
  -- the key and refused writes of it; it is made behind the writes of others at that call.
  pub record Replaced (empty old new : A) (g : Bytes) (first after : World) : Type 0 where
    pub at : World
    pub reached : Reached ctx key first at
    pub content : Bytes
    pub was :
        Holds codec key ctx old (state_at_call at)
        ⊎ (Lacks codec key ctx (state_at_call at) × (old ≡ empty))
    pub encoded : codec.marshal new ≡ some content
    pub objects :
        after.store.objects
        ≡ Assoc.insert key (record { content = content; generation = g }) (state_at_call at).objects
    pub left : after.schedule ≡ (next_event at.schedule).1

  put-Holds :
      (old : A) (gen content g : Bytes) (w w' : World)
      → Room w
      → Found codec key ctx old gen w
      → World.put ctx key content (condition_of gen) w ≡ (ok g, w')
      → Holds codec key ctx old (state_at_call w)
  put-Holds old gen content g w w' (v, h) (read, o, got, dec, is_gen) e =
      let (x, at, c, same) = get_found ctx key w.store read o got in
      let full : is_empty o.generation ≡ false =
        rw same at (Taken-nonempty w.store x.generation (IsValid-Taken v key x at)) in
      let put' : Mem.put ctx key (ok content) (if_generation o.generation) (state_at_call w)
          ≡ ok (g, w'.store) =
        rw (ap condition_of is_gen ∙ cond_of-nonempty o.generation full) at
          (put_call-ok ctx key content (condition_of gen) w w' g e) in
      let (y, there, bytes) =
        put-get_no_lost_update ctx ctx key read content g o w.store w'.store
          (next_event w.schedule).0.others v (omega (arith, others-weight w.schedule)) got put' in
      (y, there, rw bytes dec)
    where
      cond_of-nonempty : (o : Bytes) → is_empty o ≡ false → condition_of o ≡ if_generation o
      cond_of-nonempty o k = rw k refl

  pub put-Replaced :
      (empty old new : A) (gen content g : Bytes) (first u w w' : World)
      → Reached ctx key first w
      → Room w
      → WasRead codec key ctx empty old gen u w
      → codec.marshal new ≡ some content
      → World.put ctx key content (condition_of gen) w ≡ (ok g, w')
      → Replaced empty old new g first w'
  unfolding refuses is_empty
  put-Replaced empty old new gen content g first u w w' reached (v, h) read enc e = record {
    at = w;
    reached = reached;
    content = content;
    was = by_read read;
    encoded = enc;
    objects = (put_lem ctx key (condition_of gen) (state_at_call w) content g w'.store put).objects;
    left = put-schedule ctx key content (condition_of gen) w w' (ok g) e;
  }
    where
      put : Mem.put ctx key (ok content) (condition_of gen) (state_at_call w) ≡ ok (g, w'.store)
      put = put_call-ok ctx key content (condition_of gen) w w' g e

      absent_met : (o : Option MemEntry) → refuses if_absent o ≡ false → o ≡ none
      absent_met none k = refl
      absent_met (some x) k = cc

      by_read :
          WasRead codec key ctx empty old gen u w
          → Holds codec key ctx old (state_at_call w)
            ⊎ (Lacks codec key ctx (state_at_call w) × (old ≡ empty))
      by_read (inl (is_empty_doc, no_gen, _)) = inr (
        absent_met _ (
            rw no_gen at
              (put_lem ctx key (condition_of gen) (state_at_call w) content g w'.store put).met),
        is_empty_doc,
      )
      by_read (inr found) = inl (put-Holds old gen content g w w' (v, h) found e)

  -- A call that writes on what was read, made in the world `at`.
  pub record Rewritten (old new : A) (g : Bytes) (at after : World) : Type 0 where
    pub content : Bytes
    pub was : Holds codec key ctx old (state_at_call at)
    pub encoded : codec.marshal new ≡ some content
    pub objects :
        after.store.objects
        ≡ Assoc.insert key (record { content = content; generation = g }) (state_at_call at).objects

  pub write_document-Rewritten :
      (old new : A) (gen g : Bytes) (w w' : World)
      → Room w
      → Found codec key ctx old gen w
      → write_document codec key ctx new gen w ≡ (ok g, w')
      → Rewritten old new g w w'
  unfolding write_document
  write_document-Rewritten old new gen g w w' room found e = by_codec (codec.marshal new) refl e
    where
      by_codec :
          (o : Option Bytes)
          → codec.marshal new ≡ o
          → write_encoded codec key ctx gen o w ≡ (ok g, w')
          → Rewritten old new g w w'
      by_codec none k l = cc
      by_codec (some content) k l = record {
        content = content;
        was = put-Holds old gen content g w w' room found l;
        encoded = k;
        objects =
            (put_lem ctx key (condition_of gen) (state_at_call w) content g w'.store
              (put_call-ok ctx key content (condition_of gen) w w' g l)).objects;
      }
