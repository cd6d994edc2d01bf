-- ===== src/Ingest/Client/Forks.antt =====
-- What a fork that succeeds has done, step by step.
use cloudy_neigh.Prelude.{
  ℕ, ◌≡◌, refl, ap, ◌∙◌, true, false, Option, none, some, List, [], Bytes, is_empty, if◌then◌else◌,
  Error, Result, ok, err, is_not_found, is_precondition_failed, branch_already_exists, inl, inr,
  Bool-cases, arith,
}
use cloudy_neigh.Prelude.Assoc
use cloudy_neigh.ObjectStore.Defs.{Context, if_absent}
use cloudy_neigh.ObjectStore.Mem.{MemEntry, refuses}
use cloudy_neigh.ObjectStore.Mem.Validity.{put_lem}
use cloudy_neigh.ObjectStore.World.{World, Io, pure, raise, attempt, continue}
use cloudy_neigh.ObjectStore.World.Inversion.{bind_ok}
use cloudy_neigh.ObjectStore.World.Room.{Room, put_call-ok, state_at_call}
use cloudy_neigh.ObjectStore.Document.{Codec, write_document, write_encoded}
use cloudy_neigh.ObjectStore.Document.Reads.{Found, Lacks, read_document-Found}
use cloudy_neigh.Namespace.Names.{Scope, manifest_key}
use cloudy_neigh.Namespace.Branches.{add_branch}
use cloudy_neigh.Manifest
use cloudy_neigh.Manifest.{BranchManifest}
use cloudy_neigh.Ingest.Messages.{Codecs}
use cloudy_neigh.Ingest.Client.{
  Ingester, copy_manifest, copied, listed, announce, announced, fork_branch, fork_event,
  append_records,
}

module _ {A : Type 0} (codec : Codec A) (key : Bytes) (ctx : Context) where
  -- A call made in the world `at` wrote a document where no object was.
  pub record Created (new : A) (g : Bytes) (at after : World) : Type 0 where
    pub content : Bytes
    pub absent : Lacks codec key ctx (state_at_call at)
    pub encoded : codec.marshal new ≡ some content
    pub objects :
        after.store.objects
        ≡ Assoc.insert key (record { content = content; generation = g }) (state_at_call at).objects

  pub write_document-Created :
      (new : A) (g : Bytes) (w w' : World)
      → write_document codec key ctx new [] w ≡ (ok g, w')
      → Created new g w w'
  unfolding write_document is_empty refuses
  write_document-Created new g w w' e = by_codec (codec.marshal new) refl e
    where
      absent_met : (o : Option MemEntry) → refuses if_absent o ≡ false → o ≡ none
      absent_met none k = refl
      absent_met (some x) k = cc

      by_codec :
          (o : Option Bytes)
          → codec.marshal new ≡ o
          → write_encoded codec key ctx [] o w ≡ (ok g, w')
          → Created new g w w'
      by_codec none k l = cc
      by_codec (some content) k l =
          let p =
            put_lem ctx key if_absent (state_at_call w) content g w'.store
              (put_call-ok ctx key content if_absent w w' g l) in
          record {
            content = content;
            absent = absent_met _ p.met;
            encoded = k;
            objects = p.objects;
          }

module _ (codecs : Codecs) (ctx : Context) (now : ℕ) where
  -- The manifest of the parent was read, and then written under the key of the target, where there
  -- was none.
  pub record Copied (scope : Scope) (source target : Bytes) (first after : World) : Type 0 where
    pub parent : BranchManifest
    pub parent_gen : Bytes
    pub at_read : World
    pub at_write : World
    pub problem : Error
    pub was : Found codecs.manifest (manifest_key scope source) ctx parent parent_gen at_read
    pub is_read :
        Manifest.read codecs.manifest ctx (manifest_key scope source) first
        ≡ (ok (parent, parent_gen), at_read)
    pub is_missed :
        Manifest.read codecs.manifest ctx (manifest_key scope target) at_read
        ≡ (err problem, at_write)
    pub is_absence : is_not_found problem ≡ true
    pub generation : Bytes
    pub created :
        Created codecs.manifest (manifest_key scope target) ctx parent generation at_write after

  -- Behind the parent's manifest: the target's is looked for, and then written.
  abbrev on_missing : Scope → Bytes → BranchManifest → Error → Io Bytes
  on_missing scope target parent e =
      if is_not_found e
      then attempt (Manifest.write codecs.manifest ctx (manifest_key scope target) (some parent) [])
          pure (λ x. if is_precondition_failed x then raise branch_already_exists else raise x)
      else raise e

  on_missing-ok :
      (scope : Scope) (target : Bytes) (parent : BranchManifest) (e : Error) (g : Bytes)
      (w w' : World)
      → on_missing scope target parent e w ≡ (ok g, w')
      → (is_not_found e ≡ true)
        × Created codecs.manifest (manifest_key scope target) ctx parent g w w'
  unfolding attempt Manifest.write
  on_missing-ok scope target parent e g w w' h = elim (Bool-cases (is_not_found e)) [
    | inl missing ↦ (
      missing,
      by_write (write_document codecs.manifest (manifest_key scope target) ctx parent [] w) refl
          (rw missing at h),
    )
    | inr other ↦ let failed : raise {A = Bytes} e w ≡ (ok g, w') = rw other at h in cc
  ]
    where
      by_write :
          (p : Result Bytes × World)
          → write_document codecs.manifest (manifest_key scope target) ctx parent [] w ≡ p
          → continue pure
              (λ x. if is_precondition_failed x then raise branch_already_exists else raise x)
              p.0
              p.1
            ≡ (ok g, w')
          → Created codecs.manifest (manifest_key scope target) ctx parent g w w'
      by_write (ok g', v) e k =
          write_document-Created codecs.manifest (manifest_key scope target) ctx parent g w w'
            (e ∙ k)
      by_write (err x, v) e k = absurd (ground arith)

  after_read-ok :
      (scope : Scope) (target : Bytes) (parent : BranchManifest)
      (r : Result (BranchManifest × Bytes)) (g : Bytes) (w w' : World)
      → continue (λ _. raise branch_already_exists) (on_missing scope target parent) r w
        ≡ (ok g, w')
      → (e : Error) × (r ≡ err e)
        × (is_not_found e ≡ true)
        × Created codecs.manifest (manifest_key scope target) ctx parent g w w'
  after_read-ok scope target parent (ok m) g w w' h = cc
  after_read-ok scope target parent (err e) g w w' h =
      let (absent, made) = on_missing-ok scope target parent e g w w' h in (e, refl, absent, made)

  copy_manifest-Copied :
      (scope : Scope) (source target g : Bytes) (w w' : World)
      → Room w
      → copy_manifest codecs ctx now scope source target w ≡ (ok g, w')
      → Copied scope source target w w'
  unfolding copy_manifest Manifest.read attempt
  copy_manifest-Copied scope source target g w w' room h =
      let (p, w1, got, rest) =
        bind_ok (Manifest.read codecs.manifest ctx (manifest_key scope source)) _ w g w' h in
      let (_, was) =
        read_document-Found codecs.manifest (manifest_key scope source) ctx p.0 p.1 w w1 got room in
      let q = Manifest.read codecs.manifest ctx (manifest_key scope target) w1 in
      let (e, is_err, absent, made) = after_read-ok scope target p.0 q.0 g q.1 w' rest in
      record {
        parent = p.0;
        parent_gen = p.1;
        at_read = w1;
        at_write = q.1;
        problem = e;
        is_read = got;
        is_missed = ap (λ (r : Result (BranchManifest × Bytes)). (r, q.1)) is_err;
        is_absence = absent;
        was = was;
        generation = g;
        created = made;
      }

  -- The steps of a fork, in their order: the manifest of the target is there, then the branch is
  -- listed, and then the log of the namespace has the record of the fork.
  pub record Forked (scope : Scope) (source target : Bytes) (ing ing' : Ingester) (first w' : World)
      : Type 0 where
    pub at_copy : World
    pub at_listing : World
    pub records : List Bytes
    pub number : ℕ
    pub is_copied : Copied scope source target first at_copy
    pub is_listed : add_branch codecs.branches ctx scope target at_copy ≡ (ok tt, at_listing)
    pub is_event : fork_event codecs ctx now source target ≡ ok records
    pub is_appended :
        append_records codecs ctx now scope (ok records) ing at_listing ≡ (ok number, ing', w')

  announced-ok :
      (del_ctx : Context) (scope : Scope) (target : Bytes) (p : Result ℕ × Ingester × World)
      (ing' : Ingester) (w' : World)
      → announced codecs ctx now del_ctx scope target p ≡ (ok tt, ing', w')
      → (n : ℕ) × (p ≡ (ok n, ing', w'))
  announced-ok del_ctx scope target (ok n, ing, w) ing' w' h = (n, cc)
  announced-ok del_ctx scope target (err e, ing, w) ing' w' h = cc

  announce-ok :
      (del_ctx : Context) (scope : Scope) (target : Bytes) (r : Result (List Bytes))
      (ing ing' : Ingester) (w w' : World)
      → announce codecs ctx now del_ctx scope target r ing w ≡ (ok tt, ing', w')
      → (rs : List Bytes) × (n : ℕ) × (r ≡ ok rs)
        × (append_records codecs ctx now scope (ok rs) ing w ≡ (ok n, ing', w'))
  announce-ok del_ctx scope target (err e) ing ing' w w' h = cc
  announce-ok del_ctx scope target (ok rs) ing ing' w w' h =
      let (n, ran) =
        announced-ok del_ctx scope target (append_records codecs ctx now scope (ok rs) ing w) ing'
          w' h in
      (rs, n, refl, ran)

  listed-ok :
      (del_ctx : Context) (scope : Scope) (source target : Bytes) (ing ing' : Ingester)
      (p : Result (Unit {0}) × World) (w' : World)
      → listed codecs ctx now del_ctx scope source target ing p ≡ (ok tt, ing', w')
      → (w : World) × (p ≡ (ok tt, w))
        × (announce codecs ctx now del_ctx scope target
              (fork_event codecs ctx now source target)
              ing
              w
            ≡ (ok tt, ing', w'))
  listed-ok del_ctx scope source target ing ing' (ok tt, w) w' h = (w, refl, h)
  listed-ok del_ctx scope source target ing ing' (err e, w) w' h = cc

  copied-ok :
      (del_ctx : Context) (scope : Scope) (source target : Bytes) (ing ing' : Ingester)
      (p : Result Bytes × World) (w' : World)
      → copied codecs ctx now del_ctx scope source target ing p ≡ (ok tt, ing', w')
      → (g : Bytes) × (w : World) × (p ≡ (ok g, w))
        × (listed codecs ctx now del_ctx scope source target ing
              (add_branch codecs.branches ctx scope target w)
            ≡ (ok tt, ing', w'))
  copied-ok del_ctx scope source target ing ing' (ok g, w) w' h = (g, w, refl, h)
  copied-ok del_ctx scope source target ing ing' (err e, w) w' h = cc

  -- When a fork returns with no error, it has read the manifest of the source, written it under the
  -- key of the target at a moment when no object was there, then listed the branch with no error,
  -- and then appended the record of the fork to the log of the namespace. The world has a well-formed
  -- store whose counter stays an int64.
  pub fork_branch-Forked :
      (del_ctx : Context) (ns source target : Bytes) (ing ing' : Ingester) (w w' : World)
      → Room w
      → fork_branch codecs ctx now del_ctx ns source target ing w ≡ (ok tt, ing', w')
      → Forked (record { name = ns }) source target ing ing' w w'
  unfolding fork_branch
  fork_branch-Forked del_ctx ns source target ing ing' w w' room h =
      let scope : Scope = record { name = ns } in
      let (g, w1, copy, rest) =
        copied-ok del_ctx scope source target ing ing'
          (copy_manifest codecs ctx now scope source target w) w' h in
      let (w2, add, rest') =
        listed-ok del_ctx scope source target ing ing'
          (add_branch codecs.branches ctx scope target w1) w' rest in
      let (rs, n, event, app) =
        announce-ok del_ctx scope target (fork_event codecs ctx now source target) ing ing' w2 w'
          rest' in
      record {
        at_copy = w1;
        at_listing = w2;
        records = rs;
        number = n;
        is_copied = copy_manifest-Copied scope source target g w w1 room copy;
        is_listed = add;
        is_event = event;
        is_appended = app;
      }
