-- ===== src/RecordIo/Writer.antt =====
-- recordio/writer.go: the writer of frames.
pub mod Stream
use cloudy_neigh.Prelude.{
  ℕ, ◌+◌, ◌*◌, ◌%◌, ◌^◌, Bool, true, false, Option, none, some, [], Bytes, length, ltb,
  if◌then◌else◌, Error, closed, List, ◌∷◌, is_empty,
}
use cloudy_neigh.RecordIo.Frame.{header, footer, frame_overhead}
use cloudy_neigh.RecordIo.Buffered.{Sink, BufWriter, buf_write, flush}

pub record Writer : Type 0 where
  pub bw : BufWriter
  pub buf_size : ℕ
  pub offset : ℕ
  pub sync_on_flush : Bool
  pub is_closed : Bool
  pub error : Option Error

abbrev pub default_buffer_size : ℕ
default_buffer_size = 64 * 1024

-- NewWriter, with the options for the size of the buffer (0 keeps the default) and for the sync.
abbrev pub new_writer_with : ℕ → Bool → Sink → Writer
new_writer_with size sync w =
    let buf_size = if ltb 0 size then size else default_buffer_size in
    record {
      bw = record { sink = w; buffer = []; size = buf_size; failure = none };
      buf_size = buf_size;
      offset = 0;
      sync_on_flush = sync;
      is_closed = false;
      error = none;
    }

abbrev pub new_writer : Sink → Writer
new_writer w = new_writer_with 0 false w

-- Reset
abbrev pub reset : Sink → Writer → Writer
reset out w = record w {
  bw = record { sink = out; buffer = []; size = w.bw.size; failure = none };
  offset = 0;
  is_closed = false;
  error = none;
}

-- What `WriteRecord` returns: the bytes written, the offset of the record, the error.
pub record Written : Type 0 where
  pub n : ℕ
  pub at : ℕ
  pub error : Option Error

-- `if _, err := w.bw.Write(p); err != nil { w.err = err; return 0, startOffset, err }`, or go on
unfoldable pub write_part : Bytes → (Writer → Written × Writer) → Writer → Written × Writer
write_part p go w =
    let bw = buf_write p w.bw in
    elim bw.failure [
      | some e ↦
          (record { n = 0; at = w.offset; error = some e }, record w { bw = bw; error = some e })
      | none ↦ go (record w { bw = bw })
    ]

abbrev pub finish_record : ℕ → Writer → Written × Writer
finish_record len w =
    let total = frame_overhead + len in
    (
      record { n = total; at = w.offset; error = none },
      record w { offset = (w.offset + total) % 2 ^ 64 },
    )

unfoldable pub write_payload : Bytes → (Writer → Written × Writer) → Writer → Written × Writer
write_payload r go w = if ltb 0 (length r) then write_part r go w else go w

unfoldable pub write_record : Bytes → Writer → Written × Writer
write_record r w = elim w.error [
  | some e ↦ (record { n = 0; at = w.offset; error = some e }, w)
  | none ↦
      if w.is_closed
      then (record { n = 0; at = w.offset; error = some closed }, w)
      else write_part (header (length r))
          (write_payload r (write_part (footer r) (finish_record (length r)))) w
]

-- Sync, and Flush, which does the same with and without `syncOnFlush`.
unfoldable pub sync : Writer → Option Error × Writer
sync w = elim w.error [
  | some e ↦ (some e, w)
  | none ↦
      let bw = flush w.bw in
      elim bw.failure [
        | some e ↦ (some e, record w { bw = bw; error = some e })
        | none ↦ (none, record w { bw = bw })
      ]
]

unfoldable pub flush_writer : Writer → Option Error × Writer
unfolding sync
flush_writer w = if w.sync_on_flush then sync w else (elim w.error [
  | some e ↦ (some e, w)
  | none ↦
      let bw = flush w.bw in
      elim bw.failure [
        | some e ↦ (some e, record w { bw = bw; error = some e })
        | none ↦ (none, record w { bw = bw })
      ]
])

-- The error of `Close`: that of the flush, before that of the sink's own `Close`.
abbrev pub close_error : Option Error → Option (Option Error) → Option Error
close_error flushed none = flushed
close_error (some e) (some closing) = some e
close_error none (some closing) = closing

unfoldable pub close : Writer → Option Error × Writer
unfolding flush_writer
close w =
    if w.is_closed
    then (none, w)
    else (let (e, w') = flush_writer w in
        (close_error e w'.bw.sink.on_close, record w' { is_closed = true }))

-- for _, r := range records { w.WriteRecord(r) }, up to the first error
unfoldable pub write_records : List Bytes → Writer → Option Error × Writer
write_records [] w = (none, w)
write_records (r ∷ rs) w =
    let (x, w') = write_record r w in
    let rest = write_records rs w' in elim x.error [ some e ↦ (some e, w') | none ↦ rest ]
