-- ===== src/Segment/RoundTrip.antt =====
-- Mutations that are written as a segment are read back.
use cloudy_neigh.Prelude.{
  ℕ, zero, suc, ◌≤◌, ◌<◌, ◌≡◌, refl, sym, ap, ◌∙◌, Option, none, some, List, [], ◌∷◌, ◌++◌, Bytes,
  length, Error, unencodable, ok, All, arith, append_assoc, append-nil, length-append, Option-cases,
  inl, inr,
}
use cloudy_neigh.RecordIo.Frame.{frame, length-frame}
use cloudy_neigh.RecordIo.Buffered.{buffer_sink}
use cloudy_neigh.RecordIo.Writer.{Writer, Written, new_writer, write_record, close}
use cloudy_neigh.RecordIo.Writer.Stream.{IsReady, stream, write_record-frame, close-ready}
use cloudy_neigh.RecordIo.Scanner.{Scanner, new_scanner, source_of, default_max_record_size}
use cloudy_neigh.RecordIo.Scanner.Accepts.{scan-frame, scanned, current-scanned, scan_end, frames}
use cloudy_neigh.ObjectStore.Document.{Codec}
use cloudy_neigh.Segment.{
  DocumentMutation, Next, mutation, end_of_segment, failed, next, write, write_marshalled,
  write_all, encode_segment, close_segment, bytes_of, and_then,
}

-- What was marshalled unmarshals to the same.
abbrev pub IsFaithful : {A : Type 0} → Codec A → Type 0
IsFaithful {A} codec = (a : A) (b : Bytes) → codec.marshal a ≡ some b → codec.unmarshal b ≡ some a

abbrev collect :
    (Scanner → List DocumentMutation × Next) → Next × Scanner → List DocumentMutation × Next
collect go (mutation m, s) = let (ms, last) = go s in (m ∷ ms, last)
collect go (end_of_segment, s) = ([], end_of_segment)
collect go (failed e, s) = ([], failed e)

module _ (codec : Codec DocumentMutation) where
  -- The mutation's bytes fit the scanner.
  abbrev pub IsSmall : DocumentMutation → Type 0
  IsSmall m = (b : Bytes) → codec.marshal m ≡ some b → length b ≤ default_max_record_size

  -- The bytes of each of the mutations, which read back and fit.
  abbrev pub Encoded : List DocumentMutation → List Bytes → Type 0
  Encoded [] [] = Unit
  Encoded (m ∷ ms) (b ∷ bs) =
      (codec.unmarshal b ≡ some m) × (length b ≤ default_max_record_size) × Encoded ms bs
  Encoded _ _ = ⊥

  -- All mutations up to what is none: the end of the segment, or an error. A mutation takes sixteen
  -- bytes at least.
  unfoldable pub read_loop : ℕ → Scanner → List DocumentMutation × Next
  read_loop zero s = ([], end_of_segment)
  read_loop (suc fuel) s = collect (read_loop fuel) (next codec s)

  unfoldable pub read_all : Bytes → List DocumentMutation × Next
  unfolding read_loop
  read_all bytes = read_loop (suc (length bytes)) (new_scanner (source_of bytes))

  record Wrote (ms : List DocumentMutation) (w w' : Writer) : Type 0 where
    records : List Bytes
    encoded : Encoded ms records
    ready : IsReady w'
    bytes : stream w' ≡ stream w ++ frames records

  write_all_lem :
      (ms : List DocumentMutation) (w w' : Writer)
      → IsFaithful codec
      → All IsSmall ms
      → IsReady w
      → write_all codec ms w ≡ (none, w')
      → Wrote ms w w'
  unfolding write_all write
  write_all_lem [] w w' law small ready h =
      let same : w ≡ w' = cc in
      record {
        records = [];
        encoded = tt;
        ready = rw (← same) ready;
        bytes = ap stream (sym same) ∙ sym (append-nil (stream w));
      }
  write_all_lem (m ∷ ms) w w' law (fits, small) ready h = elim (Option-cases (codec.marshal m)) [
    | inl refused ↦ absurd (refused_write refused h)
    | inr (b, e) ↦
        let (said, ready1, bytes1, _) = write_record-frame b w ready in
        let r =
          write_all_lem ms (write_record b w).1 w' law small ready1
            (after (write_record b w) said (rw e at h)) in
        record {
          records = b ∷ r.records;
          encoded = (law m b e, fits b e, r.encoded);
          ready = r.ready;
          bytes =
              r.bytes
              ∙ ap (λ l. l ++ frames r.records) bytes1
              ∙ append_assoc (stream w) (frame b) (frames r.records);
        }
  ]
    where
      refused_write :
          codec.marshal m ≡ none
          → and_then (write_all codec ms) (write_marshalled codec (codec.marshal m) w) ≡ (none, w')
          → ⊥
      refused_write e k =
          let never : and_then (write_all codec ms) (some unencodable, w) ≡ (none, w') =
            rw e at k in
          cc

      after :
          (p : Written × Writer) {n : ℕ} {o : ℕ}
          → p.0 ≡ record { n = n; at = o; error = none }
          → and_then (write_all codec ms) (p.0.error, p.1) ≡ (none, w')
          → write_all codec ms p.1 ≡ (none, w')
      after p e k = rw e at k

  read_loop_lem :
      (ms : List DocumentMutation) (bs : List Bytes) (fuel : ℕ) (s : Scanner)
      → Encoded ms bs
      → s.error ≡ none
      → s.max_record_size ≡ default_max_record_size
      → s.source.failure ≡ none
      → s.source.rest ≡ frames bs
      → length (frames bs) < fuel
      → read_loop fuel s ≡ (ms, end_of_segment)
  unfolding read_loop next scanned
  read_loop_lem ms bs zero s enc ne max f e h = absurd (omega arith)
  read_loop_lem [] [] (suc fuel) s enc ne max f e h = rw (scan_end s ne e f) (rw ne refl)
  read_loop_lem (m ∷ ms) (b ∷ bs) (suc fuel) s (back, fits, enc) ne max f e h =
      let s' = scanned s (length b) b (frames bs) in
      let ih =
        read_loop_lem ms bs fuel s' enc ne max f refl
          (omega (arith, length-frame b, length-append (frame b) (frames bs))) in
      rw (scan-frame b (frames bs) s ne (omega arith) (omega arith) e)
        (rw (ap codec.unmarshal (current-scanned s b (frames bs)) ∙ back) (rw ih refl))
  read_loop_lem [] (b ∷ bs) (suc fuel) s enc ne max f e h = elim enc [ ]
  read_loop_lem (m ∷ ms) [] (suc fuel) s enc ne max f e h = elim enc [ ]

  pub closed_lem :
      (ms : List DocumentMutation) (content : Bytes) (p : Option Error × Writer)
      → write_all codec ms (new_writer buffer_sink) ≡ p
      → IsFaithful codec
      → All IsSmall ms
      → close_segment codec p ≡ ok content
      → (bs : List Bytes) × Encoded ms bs × (content ≡ frames bs)
  closed_lem ms content (some e, w) written law small h = cc
  closed_lem ms content (none, w) written law small h =
      let r = write_all_lem ms (new_writer buffer_sink) w law small first written in
      let (e', all, _) = close-ready w r.ready in
      (r.records, r.encoded, whole (close w) e' h ∙ all ∙ r.bytes)
    where
      first : IsReady (new_writer buffer_sink)
      first = record {
        no_error = refl;
        is_open = refl;
        sink_open = record { no_failure = refl; endless = refl; no_closer = refl };
      }

      whole :
          (q : Option Error × Writer)
          → q.0 ≡ none
          → bytes_of codec q ≡ ok content
          → content ≡ q.1.bw.sink.written
      whole (none, v) e k = cc
      whole (some x, v) e k = cc

  -- The bytes of a segment read back as the mutations that were written, all of them and in order,
  -- and then the end, when the codec reads what it has written and each mutation's bytes fit the
  -- scanner.
  pub read_all-encode_segment :
      (ms : List DocumentMutation) (bytes : Bytes)
      → IsFaithful codec
      → All IsSmall ms
      → encode_segment codec ms ≡ ok bytes
      → read_all bytes ≡ (ms, end_of_segment)
  unfolding encode_segment read_all
  read_all-encode_segment ms bytes law small h =
      let (bs, enc, whole) =
        closed_lem ms bytes (write_all codec ms (new_writer buffer_sink)) refl law small h in
      read_loop_lem ms bs (suc (length bytes)) (new_scanner (source_of bytes)) enc refl refl refl
        whole (omega (arith, ap length whole))
