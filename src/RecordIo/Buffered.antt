-- ===== src/RecordIo/Buffered.antt =====
-- The standard library's `bufio.Writer` over a writer that may run out of room, as the record
-- writer uses it.
use cloudy_neigh.Prelude.{
  ℕ, ◌-◌, ◌≡◌, refl, ap, ◌∙◌, true, Option, none, some, [], ◌∷◌, ◌++◌, Bytes, length, take, drop,
  leb, if◌then◌else◌, Error, io_failure, is_empty, arith, take-append-drop, append_assoc,
  append-nil,
}

-- The writer below: the bytes that it has, and how many more it takes, if that is limited. What
-- `Close` returns, if it is an `io.Closer`.
pub record Sink : Type 0 where
  pub written : Bytes
  pub room : Option ℕ
  pub on_close : Option (Option Error)

-- bytes.Buffer
abbrev pub buffer_sink : Sink
buffer_sink = record { written = []; room = none; on_close = none }

-- One `Write`: all of the bytes, or as many as there is room for and an error.
unfoldable pub sink_write : Bytes → Sink → Option Error × Sink
sink_write p s = elim s.room [
  | none ↦ (none, record s { written = s.written ++ p })
  | some n ↦
      if leb (length p) n
      then (none, record s { written = s.written ++ p; room = some (n - length p) })
      else (some io_failure, record s { written = s.written ++ take n p; room = some 0 })
]

pub record BufWriter : Type 0 where
  pub sink : Sink
  pub buffer : Bytes
  pub size : ℕ
  pub failure : Option Error

-- An error stays; after a flush that succeeds the buffer is empty.
abbrev pub flushed : BufWriter → Option Error × Sink → BufWriter
flushed b (none, s) = record b { sink = s; buffer = [] }
flushed b (some e, s) = record b { sink = s; failure = some e }

unfoldable pub flush : BufWriter → BufWriter
unfolding sink_write
flush b = elim b.failure [
  | some e ↦ b
  | none ↦ if is_empty b.buffer then b else flushed b (sink_write b.buffer b.sink)
]

abbrev pub written_through : BufWriter → Option Error × Sink → BufWriter
written_through b (none, s) = record b { sink = s }
written_through b (some e, s) = record b { sink = s; failure = some e }

-- A write into an empty buffer: a large one goes straight to the sink.
unfoldable pub write_empty : Bytes → BufWriter → BufWriter
unfolding sink_write
write_empty p b = elim b.failure [
  | some e ↦ b
  | none ↦
      if leb (length p) b.size
      then record b { buffer = p }
      else written_through b (sink_write p b.sink)
]

-- A write that does not fit fills the buffer, flushes it, and goes on with the rest.
unfoldable pub buf_write : Bytes → BufWriter → BufWriter
buf_write p b = elim b.failure [
  | some e ↦ b
  | none ↦
      let free = b.size - length b.buffer in
      if leb (length p) free
      then record b { buffer = b.buffer ++ p }
      else if is_empty b.buffer
      then write_empty p b
      else write_empty (drop free p) (flush (record b { buffer = b.buffer ++ take free p }))
]

-- All bytes that were written so far, in order.
abbrev pub contents : BufWriter → Bytes
contents b = b.sink.written ++ b.buffer

-- A writer over a sink that takes everything and is no `io.Closer`, on which nothing has failed.
pub record IsOpen (b : BufWriter) : Type 0 where
  pub no_failure : b.failure ≡ none
  pub endless : b.sink.room ≡ none
  pub no_closer : b.sink.on_close ≡ none

flush-IsOpen_cases :
    (sink : Sink) (buffer : Bytes) (size : ℕ) (failure : Option Error)
    → failure ≡ none
    → sink.room ≡ none
    → sink.on_close ≡ none
    → let b : BufWriter = record { sink = sink; buffer = buffer; size = size; failure = failure } in
      IsOpen (flush b)
      × ((flush b).sink.written ≡ contents b)
      × ((flush b).buffer ≡ [])
      × ((flush b).size ≡ size)
unfolding flush is_empty
flush-IsOpen_cases sink [] size failure f r c = ground (arith, append-nil sink.written)
flush-IsOpen_cases sink (x ∷ xs) size failure f r c = ground arith

-- A flush hands the whole buffer to the sink, in order.
pub flush-IsOpen :
    (b : BufWriter)
    → IsOpen b
    → IsOpen (flush b)
      × ((flush b).sink.written ≡ contents b)
      × ((flush b).buffer ≡ [])
      × ((flush b).size ≡ b.size)
flush-IsOpen b o =
    flush-IsOpen_cases b.sink b.buffer b.size b.failure o.no_failure o.endless o.no_closer

write_empty-IsOpen :
    (p : Bytes) (b : BufWriter)
    → IsOpen b
    → b.buffer ≡ []
    → IsOpen (write_empty p b) × (contents (write_empty p b) ≡ b.sink.written ++ p)
unfolding write_empty
write_empty-IsOpen p b o e = ground (arith, append-nil (b.sink.written ++ p))

is_empty_lem : (l : Bytes) → is_empty l ≡ true → l ≡ []
unfolding is_empty
is_empty_lem [] h = refl
is_empty_lem (x ∷ l) h = cc

-- A write that fills the buffer first.
write_filled-IsOpen :
    (free : ℕ) (p : Bytes) (b : BufWriter)
    → IsOpen b
    → let b' = write_empty (drop free p) (flush (record b { buffer = b.buffer ++ take free p })) in
      IsOpen b' × (contents b' ≡ contents b ++ p)
write_filled-IsOpen free p b o =
    let filled : BufWriter = record b { buffer = b.buffer ++ take free p } in
    let (o', all, none_left, _) =
      flush-IsOpen filled
        (record { no_failure = o.no_failure; endless = o.endless; no_closer = o.no_closer }) in
    let (o'', said) = write_empty-IsOpen (drop free p) (flush filled) o' none_left in
    (
      o'',
      said
          ∙ ap (λ l. l ++ drop free p) all
          ∙ simp append_assoc
              (ap (λ l. b.sink.written ++ (b.buffer ++ l)) (take-append-drop free p)),
    )

-- A write adds its bytes behind all others. Neither the size of the buffer nor how the bytes are
-- cut into writes matters.
pub buf_write-IsOpen :
    (p : Bytes) (b : BufWriter)
    → IsOpen b
    → IsOpen (buf_write p b) × (contents (buf_write p b) ≡ contents b ++ p)
unfolding buf_write
buf_write-IsOpen p b o = ground (
  arith,
  append_assoc b.sink.written b.buffer p,
  append-nil b.sink.written,
  is_empty_lem b.buffer,
  write_empty-IsOpen p b o,
  write_filled-IsOpen (b.size - length b.buffer) p b o,
)
