-- ===== src/Ingest/Flush/Commits.antt =====
-- What a flush has done to the manifest of its branch.
use cloudy_neigh.Prelude.{
  ℕ, ◌+◌, ◌≤◌, ◌<◌, ◌≡◌, refl, sym, ap, ◌∙◌, Bool, true, false, List, ◌∷◌, Bytes, length, leb,
  if◌then◌else◌, Result, ok, err, is_precondition_failed, ◌⊎◌, inl, inr, arith,
}
use cloudy_neigh.Prelude.Assoc
use cloudy_neigh.ObjectStore.Defs.{Context, if_absent}
use cloudy_neigh.ObjectStore.World
use cloudy_neigh.ObjectStore.World.{World, Io, pure, raise, lift, attempt, continue, ◌>>=◌}
use cloudy_neigh.ObjectStore.World.Inversion.{bind_ok}
use cloudy_neigh.ObjectStore.World.Room.{Room, RoomToWrite, put-Room}
use cloudy_neigh.ObjectStore.World.Reached.{Reached, start}
use cloudy_neigh.ObjectStore.Document.{keep, replace, read_or}
use cloudy_neigh.ObjectStore.Document.Reads.{WasRead, read_or-WasRead}
use cloudy_neigh.ObjectStore.Document.Writes.{Replaced}
use cloudy_neigh.ObjectStore.Document.Atomic.{Ended, kept, written, update_loop-Ended}
use cloudy_neigh.Namespace.Names.{Scope, manifest_key, segment_key}
use cloudy_neigh.Namespace.Branches.{add_branch}
use cloudy_neigh.Manifest.{BranchManifest, SegmentRef}
use cloudy_neigh.Segment.{DocumentMutation, encode_segment}
use cloudy_neigh.Ingest.Messages.{Codecs}
use cloudy_neigh.Ingest.Flush.{
  Checkpoints, fresh_manifest, advanced, flush_found, flush_step, noted, segment_id, upload,
  segment_ref, commit, register, flush_mutations, flush_branch,
}

flush_found-keep :
    (seq c : ℕ) (ref : SegmentRef) (m : BranchManifest) (b : Bool)
    → flush_found seq ref m b ≡ keep (ok c)
    → (b ≡ true) × (c ≡ m.checkpoint_seq)
flush_found-keep seq c ref m true h = (refl, cc)
flush_found-keep seq c ref m false h = cc

flush_found-replace :
    (seq : ℕ) (ref : SegmentRef) (m new : BranchManifest) (result : Bytes → ℕ) (b : Bool)
    → flush_found seq ref m b ≡ replace new result
    → (b ≡ false) × (new ≡ advanced seq ref m) × (result ≡ (λ _. seq))
flush_found-replace seq ref m new result true h = cc
flush_found-replace seq ref m new result false h = (refl, cc, cc)

module _ (codecs : Codecs) (sha256 : Bytes → Bytes) (ctx : Context) (scope : Scope) where
  -- The manifest of the branch had the batch already, and is left alone; or it was replaced, at one
  -- moment, by one with the segment and the batch's number. `c` is its checkpoint then.
  abbrev pub Committed : Bytes → SegmentRef → ℕ → ℕ → World → World → Type 0
  Committed branch ref seq c first w =
      ((old : BranchManifest) × (gen : Bytes) × (seq ≤ old.checkpoint_seq)
        × (c ≡ old.checkpoint_seq)
        × (u : World) × Reached ctx (manifest_key scope branch) first u
        × WasRead codecs.manifest (manifest_key scope branch) ctx fresh_manifest old gen u w)
      ⊎ ((old : BranchManifest) × (g : Bytes) × (old.checkpoint_seq < seq)
          × (c ≡ seq)
          × Replaced codecs.manifest (manifest_key scope branch) ctx fresh_manifest old
              (advanced seq ref old) g first w)

  flush-Ended :
      (branch : Bytes) (ref : SegmentRef) (seq c : ℕ) (first w : World)
      → Ended codecs.manifest
          (manifest_key scope branch)
          ctx
          fresh_manifest
          (flush_step seq ref)
          c
          first
          w
      → Committed branch ref seq c first w
  flush-Ended branch ref seq c first w (kept old gen u at_read was d) =
      let (has, same) = flush_found-keep seq c ref old (leb seq old.checkpoint_seq) d in
      inl (old, gen, ground arith, same, u, at_read, was)
  flush-Ended branch ref seq c first w (written old new gen g result d same r) =
      let (lacks, is_new, is_result) =
        flush_found-replace seq ref old new result (leb seq old.checkpoint_seq) d in
      inr (old, g, ground arith, sym same ∙ ap (λ (f : Bytes → ℕ). f g) is_result, rw (← is_new) r)

  commit-Committed :
      (branch : Bytes) (ref : SegmentRef) (seq c : ℕ) (w w' : World)
      → Room w
      → commit codecs sha256 ctx scope branch ref seq w ≡ (ok c, w')
      → Committed branch ref seq c w w'
  unfolding commit
  commit-Committed branch ref seq c w w' room h =
      let key = manifest_key scope branch in
      flush-Ended branch ref seq c w w' (
        update_loop-Ended codecs.manifest key ctx fresh_manifest
          (read_or codecs.manifest key ctx fresh_manifest) (flush_step seq ref)
          (read_or-WasRead codecs.manifest key ctx fresh_manifest) (length w.schedule + 1) w w w' c
          start h room)

  after_put : Result Bytes → Io (Unit {0})
  after_put r =
      continue (λ _. pure tt) (λ e. if is_precondition_failed e then pure tt else raise e) r

  after_put-pure : (r : Result Bytes) (w w' : World) → after_put r w ≡ (ok tt, w') → w ≡ w'
  unfolding after_put
  after_put-pure (ok g) w w' h = cc
  after_put-pure (err x) w w' h = ground arith

  upload-Room :
      (content : Bytes) (w w' : World)
      → RoomToWrite w
      → upload codecs sha256 ctx scope content w ≡ (ok tt, w')
      → Room w'
  unfolding upload attempt after_put
  upload-Room content w w' room h =
      let key = segment_key scope (segment_id codecs sha256 ctx scope content) in
      let p = World.put ctx key content if_absent w in
      rw (← after_put-pure p.0 p.1 w' h) (put-Room ctx key content if_absent w p.1 p.0 room refl)

  -- A flush has made a segment of the mutations, uploaded it, settled it with the manifest of its branch, then
  -- made sure that the branch is listed, and noted the checkpoint.
  pub record Flushed (branch : Bytes) (ms : List DocumentMutation) (seq : ℕ)
      (before after : Checkpoints) (first w' : World) : Type 0 where
    pub content : Bytes
    pub checkpoint : ℕ
    pub at_commit : World
    pub world : World
    pub encoded : encode_segment codecs.document_mutation ms ≡ ok content
    pub uploaded : upload codecs sha256 ctx scope content first ≡ (ok tt, at_commit)
    pub committed :
        Committed branch
          (segment_ref codecs sha256 ctx scope ms content)
          seq
          checkpoint
          at_commit
          world
    pub listed : add_branch codecs.branches ctx scope branch world ≡ (ok tt, w')
    pub is_noted : after ≡ Assoc.insert branch checkpoint before

  noted-ok :
      (branch : Bytes) (before after : Checkpoints) (p : Result ℕ × World) (w' : World)
      → noted branch before p ≡ (ok tt, after, w')
      → (c : ℕ) × (p ≡ (ok c, w')) × (after ≡ Assoc.insert branch c before)
  noted-ok branch before after (ok c, w) w' h = (c, cc, cc)
  noted-ok branch before after (err e, w) w' h = cc

  -- When a flush of mutations returns with no error, the manifest of the branch has taken up the
  -- segment of these mutations together with the number of the batch, at one moment and only if its
  -- checkpoint was lower, or it had a checkpoint as high and is left alone; the branch was listed
  -- after that; and the checkpoint of the manifest is noted. The world has a well-formed store
  -- whose counter stays an int64.
  pub flush_branch-Flushed :
      (branch : Bytes) (m : DocumentMutation) (ms : List DocumentMutation) (seq : ℕ)
      (before after : Checkpoints) (w w' : World)
      → RoomToWrite w
      → flush_branch codecs sha256 ctx scope branch (m ∷ ms) seq before w ≡ (ok tt, after, w')
      → Flushed branch (m ∷ ms) seq before after w w'
  unfolding flush_branch flush_mutations register
  flush_branch-Flushed branch m ms seq before after w w' room h =
      let (c, ran, is_noted) =
        noted-ok branch before after (flush_mutations codecs sha256 ctx scope branch (m ∷ ms) seq w)
          w' h in
      let (content, w0, enc, rest) =
        bind_ok (lift (encode_segment codecs.document_mutation (m ∷ ms))) _ w c w' ran in
      let same : w ≡ w0 = ap (λ (p : Result Bytes × World). p.1) enc in
      let (_, w1, up, rest1) = bind_ok (upload codecs sha256 ctx scope content) _ w0 c w' rest in
      let ref = segment_ref codecs sha256 ctx scope (m ∷ ms) content in
      let (c1, w2, settled, rest2) =
        bind_ok (commit codecs sha256 ctx scope branch ref seq) _ w1 c w' rest1 in
      let (_, w3, add, last) =
        bind_ok (add_branch codecs.branches ctx scope branch) _ w2 c w' rest2 in
      let room1 = upload-Room content w w1 room (rw (← same) at up) in
      let is_c : c1 ≡ c = cc in
      let is_last : w3 ≡ w' = ap (λ (p : Result ℕ × World). p.1) last in
      record {
        content = content;
        checkpoint = c;
        at_commit = w1;
        uploaded = rw (← same) at up;
        world = w2;
        encoded = ap (λ (p : Result Bytes × World). p.0) enc;
        committed = rw is_c at (commit-Committed branch ref seq c1 w1 w2 room1 settled);
        listed = rw is_last at add;
        is_noted = is_noted;
      }
