-- ===== src/Segment.antt =====
-- segment/writer.go and segment/reader.go: mutations of documents in the frames of a record file. The
-- codec of a mutation (protocol buffers) is a parameter.
pub mod RoundTrip
use cloudy_neigh.Prelude.{
  ℕ, zero, suc, Bool, true, false, Option, none, some, List, [], ◌∷◌, Bytes, length, Error, Result,
  ok, err, nil_mutation, undecodable, unencodable,
}
use cloudy_neigh.RecordIo.Buffered.{Sink, buffer_sink}
use cloudy_neigh.RecordIo.Writer.{Writer, new_writer, write_record, close}
use cloudy_neigh.RecordIo.Scanner.{Scanner, Source, new_scanner, source_of, scan, current}
use cloudy_neigh.ObjectStore.Document.{Codec}

-- storagepb.MutationOp, whose numbers are open
pub data MutationOp : Type 0 where
  put delete : MutationOp
  other : ℕ → MutationOp

-- storagepb.DocumentMutation
pub record DocumentMutation : Type 0 where
  pub branch : Bytes
  pub doc_id : Bytes
  pub op : MutationOp
  pub payload : Bytes

-- What `Next` returns: a mutation, io.EOF, or another error.
pub data Next : Type 0 where
  mutation : DocumentMutation → Next
  end_of_segment : Next
  failed : Error → Next

abbrev pub decoded : Option DocumentMutation → Next
decoded none = failed undecodable
decoded (some m) = mutation m

abbrev pub stopped : Option Error → Next
stopped none = end_of_segment
stopped (some e) = failed e

abbrev pub and_then :
    (Writer → Option Error × Writer) → Option Error × Writer → Option Error × Writer
and_then go (some e, w) = (some e, w)
and_then go (none, w) = go w

module _ (codec : Codec DocumentMutation) where
  abbrev pub write_marshalled : Option Bytes → Writer → Option Error × Writer
  write_marshalled none w = (some unencodable, w)
  write_marshalled (some bytes) w = let (x, w') = write_record bytes w in (x.error, w')

  -- Writer.Write; a mutation may be nil. (The buffer for the bytes of a mutation is reused, and what
  -- it held is overwritten.)
  unfoldable pub write : Option DocumentMutation → Writer → Option Error × Writer
  write none w = (some nil_mutation, w)
  write (some m) w = write_marshalled (codec.marshal m) w

  abbrev pub after_scan : Bool × Scanner → Next × Scanner
  after_scan (true, s) = (decoded (codec.unmarshal (current s)), s)
  after_scan (false, s) = (stopped s.error, s)

  -- Reader.Next
  unfoldable pub next : Scanner → Next × Scanner
  next s = after_scan (scan s)

  -- for _, mut := range mutations { w.Write(mut) }, up to the first error
  unfoldable pub write_all : List DocumentMutation → Writer → Option Error × Writer
  write_all [] w = (none, w)
  write_all (m ∷ ms) w = and_then (write_all ms) (write (some m) w)

  abbrev pub bytes_of : Option Error × Writer → Result Bytes
  bytes_of (some e, w) = err e
  bytes_of (none, w) = ok w.bw.sink.written

  abbrev pub close_segment : Option Error × Writer → Result Bytes
  close_segment (some e, w) = err e
  close_segment (none, w) = bytes_of (close w)

  -- The bytes of a segment, written into a buffer.
  unfoldable pub encode_segment : List DocumentMutation → Result Bytes
  encode_segment ms = close_segment (write_all ms (new_writer buffer_sink))
