-- ===== src/RecordIo/Writer/Stream.antt =====
-- What the writer has written: the frames of its records, in order.
use cloudy_neigh.Prelude.{
  ◌+◌, ◌%◌, ◌^◌, ◌≡◌, refl, sym, ap, ap₂, ◌∙◌, true, false, none, [], ◌∷◌, ◌++◌, List, Bytes,
  length, ltb, if◌then◌else◌, append_assoc, append-nil, arith,
}
use cloudy_neigh.RecordIo.Frame.{header, footer, frame, frame_overhead, length-frame}
use cloudy_neigh.RecordIo.Buffered.{buf_write, IsOpen, contents, buf_write-IsOpen, flush-IsOpen}
use cloudy_neigh.RecordIo.Writer.{
  Writer, Written, write_part, write_payload, write_record, finish_record, close, write_records,
}
use cloudy_neigh.RecordIo.Scanner.Accepts.{frames}

-- A writer that is not closed and on which nothing has failed.
pub record IsReady (w : Writer) : Type 0 where
  pub no_error : w.error ≡ none
  pub is_open : w.is_closed ≡ false
  pub sink_open : IsOpen w.bw

-- All bytes that were written so far.
abbrev pub stream : Writer → Bytes
stream w = contents w.bw

-- `w'` is `w` behind the bytes `p`.
pub record Extends (p : Bytes) (w w' : Writer) : Type 0 where
  pub ready : IsReady w'
  pub bytes : stream w' ≡ stream w ++ p
  pub same_offset : w'.offset ≡ w.offset

write_part_lem :
    (p : Bytes) (go : Writer → Written × Writer) (w : Writer)
    → IsReady w
    → write_part p go w ≡ go (record w { bw = buf_write p w.bw })
unfolding write_part
write_part_lem p go w r = ground (arith, buf_write-IsOpen p w.bw r.sink_open)

write_part-Extends :
    (p : Bytes) (w : Writer) → IsReady w → Extends p w (record w { bw = buf_write p w.bw })
write_part-Extends p w r =
    let (o, b) = buf_write-IsOpen p w.bw r.sink_open in
    record {
      ready = record { no_error = r.no_error; is_open = r.is_open; sink_open = o };
      bytes = b;
      same_offset = refl;
    }

after_parts : Bytes → Writer → Writer
after_parts r w =
    let w1 : Writer = record w { bw = buf_write (header (length r)) w.bw } in
    let w2 : Writer = if ltb 0 (length r) then record w1 { bw = buf_write r w1.bw } else w1 in
    record w2 { bw = buf_write (footer r) w2.bw }

payload-Extends :
    (r : Bytes) (w : Writer)
    → IsReady w
    → Extends r w (if ltb 0 (length r) then record w { bw = buf_write r w.bw } else w)
payload-Extends [] w k = record {
  ready = k;
  bytes = sym (append-nil (stream w));
  same_offset = refl;
}
payload-Extends (x ∷ r) w k = ground (arith, write_part-Extends (x ∷ r) w k)

Extends-trans :
    {p q : Bytes} {u v w : Writer} → Extends p u v → Extends q v w → Extends (p ++ q) u w
Extends-trans {p} {q} {u} a b = record {
  ready = b.ready;
  bytes = b.bytes ∙ ap (λ l. l ++ q) a.bytes ∙ append_assoc (stream u) p q;
  same_offset = b.same_offset ∙ a.same_offset;
}

after_parts-Extends : (r : Bytes) (w : Writer) → IsReady w → Extends (frame r) w (after_parts r w)
unfolding frame after_parts
after_parts-Extends r w k =
    let a = write_part-Extends (header (length r)) w k in
    let b = payload-Extends r _ a.ready in
    let c = write_part-Extends (footer r) _ b.ready in Extends-trans a (Extends-trans b c)

write_payload_lem :
    (r : Bytes) (go : Writer → Written × Writer) (w : Writer)
    → IsReady w
    → write_payload r go w ≡ go (if ltb 0 (length r) then record w { bw = buf_write r w.bw } else w)
unfolding write_payload
write_payload_lem [] go w k = refl
write_payload_lem (x ∷ r) go w k = ground (arith, write_part_lem (x ∷ r) go w k)

write_record_live :
    (r : Bytes) (w : Writer)
    → IsReady w
    → write_record r w
      ≡ write_part
          (header (length r))
          (write_payload r (write_part (footer r) (finish_record (length r))))
          w
unfolding write_record
write_record_live r w k = ground arith

write_record_parts :
    (r : Bytes) (w : Writer)
    → IsReady w
    → write_record r w ≡ finish_record (length r) (after_parts r w)
unfolding after_parts
write_record_parts r w k =
    let a = write_part-Extends (header (length r)) w k in
    let b = payload-Extends r _ a.ready in
    write_record_live r w k
    ∙ write_part_lem (header (length r)) _ w k
    ∙ write_payload_lem r _ _ a.ready
    ∙ write_part_lem (footer r) _ _ b.ready

-- On a writer that is not closed and on which nothing failed, over a buffer with no end, a record is
-- written as its frame, at the offset that was reached, and the offset moves on by the
-- length of the frame.
pub write_record-frame :
    (r : Bytes) (w : Writer)
    → IsReady w
    → ((write_record r w).0 ≡ record { n = length (frame r); at = w.offset; error = none })
      × IsReady (write_record r w).1
      × (stream (write_record r w).1 ≡ stream w ++ frame r)
      × ((write_record r w).1.offset ≡ (w.offset + length (frame r)) % 2 ^ 64)
write_record-frame r w k =
    let x = after_parts-Extends r w k in
    let len : frame_overhead + length r ≡ length (frame r) = omega (arith, length-frame r) in
    rw (write_record_parts r w k) (
      ap₂ (λ n o. record { n = n; at = o; error = none }) len x.same_offset,
      record {
        no_error = x.ready.no_error;
        is_open = x.ready.is_open;
        sink_open = x.ready.sink_open;
      },
      x.bytes,
      ap₂ (λ o n. (o + n) % 2 ^ 64) x.same_offset len,
    )

-- The flush of `Close`, and what is in the sink behind it.
pub close-ready :
    (w : Writer)
    → IsReady w
    → ((close w).0 ≡ none)
      × ((close w).1.bw.sink.written ≡ stream w)
      × ((close w).1.is_closed ≡ true)
unfolding close
close-ready w k = ground (arith, flush-IsOpen w.bw k.sink_open)

pub write_records-frames :
    (rs : List Bytes) (w : Writer)
    → IsReady w
    → ((write_records rs w).0 ≡ none)
      × IsReady (write_records rs w).1
      × (stream (write_records rs w).1 ≡ stream w ++ frames rs)
unfolding write_records
write_records-frames [] w k = (refl, k, sym (append-nil (stream w)))
write_records-frames (r ∷ rs) w k =
    let (said, ready, bytes, _) = write_record-frame r w k in
    let (none_failed, ready', all) = write_records-frames rs (write_record r w).1 ready in
    rw (write_records, said)
      (
        none_failed,
        ready',
        all ∙ ap (λ l. l ++ frames rs) bytes ∙ append_assoc (stream w) (frame r) (frames rs),
      )
