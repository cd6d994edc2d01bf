-- ===== src/Query/Loader/Contents.antt =====
-- What a loaded segment does to the table.
use cloudy_neigh.Prelude.{
  ℕ, zero, suc, ◌<◌, ◌≡◌, refl, ap, ◌∙◌, Option, none, List, [], ◌∷◌, Bytes, length, length-append,
  Error, Result, ok, All, arith,
}
use cloudy_neigh.RecordIo.Frame.{frame, length-frame}
use cloudy_neigh.RecordIo.Scanner.{Scanner, new_scanner, source_of, default_max_record_size}
use cloudy_neigh.RecordIo.Scanner.Accepts.{scan-frame, scanned, current-scanned, scan_end, frames}
use cloudy_neigh.RecordIo.Buffered.{buffer_sink}
use cloudy_neigh.RecordIo.Writer.{new_writer}
use cloudy_neigh.Segment.{DocumentMutation, next, encode_segment, write_all}
use cloudy_neigh.Segment.RoundTrip.{IsFaithful, IsSmall, Encoded, closed_lem}
use cloudy_neigh.Ingest.Messages.{Codecs}
use cloudy_neigh.Query.Numbers.{Arithmetic, Kernels}
use cloudy_neigh.Query.Table.{Table}
use cloudy_neigh.Query.Loader.{apply, applied_or, load_loop, load_segment}

module _ (codecs : Codecs) (numbers : Arithmetic) (kernels : Kernels) where
  -- Mutations applied one after the other, up to the first that fails.
  unfoldable pub apply_all : List DocumentMutation → Table → Option Error × Table
  apply_all [] t = (none, t)
  apply_all (m ∷ ms) t =
      applied_or codecs numbers kernels none (apply_all ms) t
        (apply codecs numbers kernels none m.op m t)

  applied_or-same :
      (f g : Table → Option Error × Table) (t : Table) (r : Result Table)
      → ((t' : Table) → f t' ≡ g t')
      → applied_or codecs numbers kernels none f t r ≡ applied_or codecs numbers kernels none g t r
  applied_or-same f g t (ok t') same = same t'
  applied_or-same f g t (Result.err e) same = refl

  load_loop_lem :
      (ms : List DocumentMutation) (bs : List Bytes) (fuel : ℕ) (s : Scanner) (t : Table)
      → Encoded codecs.document_mutation ms bs
      → s.error ≡ none
      → s.max_record_size ≡ default_max_record_size
      → s.source.failure ≡ none
      → s.source.rest ≡ frames bs
      → length (frames bs) < fuel
      → load_loop codecs numbers kernels none fuel s t ≡ apply_all ms t
  unfolding load_loop apply_all next scanned
  load_loop_lem ms bs zero s t enc ne max f e h = absurd (omega arith)
  load_loop_lem [] [] (suc fuel) s t enc ne max f e h = rw (scan_end s ne e f) (rw ne refl)
  load_loop_lem (m ∷ ms) (b ∷ bs) (suc fuel) s t (back, fits, enc) ne max f e h =
      let s' = scanned s (length b) b (frames bs) in
      let go = λ (t' : Table).
        load_loop_lem ms bs fuel s' t' enc ne max f refl
          (omega (arith, length-frame b, length-append (frame b) (frames bs))) in
      rw (scan-frame b (frames bs) s ne (omega arith) (omega arith) e) (
        rw (ap codecs.document_mutation.unmarshal (current-scanned s b (frames bs)) ∙ back)
          (applied_or-same _ _ t (apply codecs numbers kernels none m.op m t) go))
  load_loop_lem [] (b ∷ bs) (suc fuel) s t enc ne max f e h = elim enc [ ]
  load_loop_lem (m ∷ ms) [] (suc fuel) s t enc ne max f e h = elim enc [ ]

  -- From the flush to the search: loading the bytes of a segment applies the mutations that were
  -- written to it, all of them, in their order, up to the first that fails. The codec of mutations
  -- reads what it writes, each mutation's bytes fit the scanner, and the context is not done.
  pub load_segment-encode_segment :
      (ms : List DocumentMutation) (bytes : Bytes) (t : Table)
      → IsFaithful codecs.document_mutation
      → All (IsSmall codecs.document_mutation) ms
      → encode_segment codecs.document_mutation ms ≡ ok bytes
      → load_segment codecs numbers kernels none bytes t ≡ apply_all ms t
  unfolding load_segment encode_segment
  load_segment-encode_segment ms bytes t law small h =
      let codec = codecs.document_mutation in
      let (bs, enc, whole) =
        closed_lem codec ms bytes (write_all codec ms (new_writer buffer_sink)) refl law small h in
      load_loop_lem ms bs (suc (length bytes)) (new_scanner (source_of bytes)) t enc refl refl refl
        whole (omega (arith, ap length whole))
