-- ===== src/LogStream/Log.antt =====
-- logstream/log.go: appending a batch, reading one, and looking for the head. A `Log` is used by one
-- goroutine at a time here: the loops around `CompareAndSwap` leave the larger number, at once.
-- Other processes that append to the same log write between any two calls of the store.
pub mod Batch
pub mod Calm
use cloudy_neigh.Prelude.{
  ℕ, zero, suc, ◌+◌, ◌%◌, ◌^◌, Bool, true, false, Option, none, some, List, [], ◌∷◌, ◌++◌, Bytes,
  length, ltb, leb, ◌==◌, if◌then◌else◌, Error, Result, ok, err, is_precondition_failed,
  is_not_found, empty_batch, zero_sequence, end_of_stream, out_of_fuel, invalid_prefix,
}
use cloudy_neigh.RecordIo.Writer.{Writer, new_writer, write_records, close}
use cloudy_neigh.RecordIo.Buffered.{buffer_sink}
use cloudy_neigh.RecordIo.Scanner.{Scanner, new_scanner, source_of, scan_all}
use cloudy_neigh.ObjectStore.Defs.{Object, Context, if_absent}
use cloudy_neigh.ObjectStore.World
use cloudy_neigh.ObjectStore.World.{World, Io, pure, raise, lift, attempt, ◌>>=◌}
use cloudy_neigh.LogStream.Keys.{segment_key, parse_seq, valid_prefix}
use cloudy_neigh.LogStream.Jump.{jump}

pub record Log : Type 0 where
  pub prefix : Bytes
  pub last_known : ℕ

-- New, over a store that is there
unfoldable pub new : Bytes → Result Log
new prefix =
    if valid_prefix prefix
    then ok (record { prefix = prefix; last_known = 0 })
    else err invalid_prefix

abbrev pub head_list_limit : ℕ
head_list_limit = 1000

-- objs[len(objs)-1].Key, for a list that begins with `o`
abbrev pub last_key : Object → List Object → Bytes
last_key o [] = o.key
last_key o (o' ∷ os) = last_key o' os

abbrev pub probe : Context → Bytes → ℕ → Io Bool
probe ctx prefix seq = World.exists ctx (segment_key prefix seq)

-- The head that is known from the last listed number: the next page of the list may hold more.
abbrev pub behind : Context → Bytes → ℕ → ℕ → Io ℕ
behind ctx prefix listed last =
    if ltb listed head_list_limit
    then pure last
    else (jump (probe ctx prefix) last >>= λ r. pure r.0)

abbrev pub head_of_list : Context → Bytes → ℕ → List Object → Io ℕ
head_of_list ctx prefix lo [] = pure lo
head_of_list ctx prefix lo (o ∷ os) =
    lift (parse_seq (last_key o os)) >>= behind ctx prefix (length (o ∷ os))

-- head: the number of the last batch, from `lo` on. (The number of probes is only logged.)
unfoldable pub head : Context → Bytes → ℕ → Io ℕ
head ctx prefix lo =
    let start = if ltb 0 lo then segment_key prefix lo else [] in
    World.list ctx (prefix ++ (b'/' ∷ [])) start head_list_limit >>= head_of_list ctx prefix lo

unfoldable pub tail : Context → Bytes → Io ℕ
tail ctx prefix = head ctx prefix 0

-- The bytes of a batch: its records in frames, in a buffer.
abbrev pub payload_of : Option Error → Writer → Result Bytes
payload_of (some e) w = err e
payload_of none w = ok w.bw.sink.written

abbrev pub close_batch : Option Error → Writer → Result Bytes
close_batch (some e) w = err e
close_batch none w = let (e, w') = close w in payload_of e w'

unfoldable pub encode_batch : List Bytes → Result Bytes
encode_batch records =
    let (e, w) = write_records records (new_writer buffer_sink) in close_batch e w

-- The loop of `Append`: another try behind the head, while the number is taken.
unfoldable pub append_loop : ℕ → Context → Bytes → Bytes → ℕ → Io ℕ
append_loop zero ctx prefix payload seq = raise out_of_fuel
append_loop (suc fuel) ctx prefix payload seq =
    let again = λ (h : ℕ). append_loop fuel ctx prefix payload ((h + 1) % 2 ^ 64) in
    attempt (World.put ctx (segment_key prefix seq) payload if_absent) (λ _. pure seq)
      (λ e. if is_precondition_failed e then head ctx prefix seq >>= again else raise e)

-- The larger of the two numbers stays.
abbrev pub raise_to : ℕ → Log → Log
raise_to n log = if leb n log.last_known then log else record log { last_known = n }

-- The number that a log without one starts from: that of the tail.
unfoldable pub locate : Context → Log → World → Result Log × World
locate ctx log =
    if log.last_known == 0 then (tail ctx log.prefix >>= λ t. pure (raise_to t log)) else pure log

abbrev pub appended : Log → Result ℕ × World → Result ℕ × Log × World
appended log (ok seq, w) = (ok seq, raise_to seq log, w)
appended log (err e, w) = (err e, log, w)

abbrev pub append_from : Context → Bytes → Log → Result Log × World → Result ℕ × Log × World
append_from ctx payload log (err e, w) = (err e, log, w)
append_from ctx payload _ (ok log, w) =
    appended log
      (append_loop (length w.schedule + 2) ctx log.prefix payload ((log.last_known + 1) % 2 ^ 64) w)

abbrev pub append_batch : Context → Log → World → Result Bytes → Result ℕ × Log × World
append_batch ctx log w (err e) = (err e, log, w)
append_batch ctx log w (ok payload) = append_from ctx payload log (locate ctx log w)

-- Append
unfoldable pub append : Context → List Bytes → Log → World → Result ℕ × Log × World
append ctx [] log w = (err empty_batch, log, w)
append ctx (r ∷ rs) log w = append_batch ctx log w (encode_batch (r ∷ rs))

abbrev pub records_of : List Bytes × Scanner → Result (List Bytes)
records_of (rs, s) = elim s.error [ some e ↦ err e | none ↦ ok rs ]

-- The records of an object.
unfoldable pub decode_batch : Bytes → Result (List Bytes)
decode_batch content = records_of (scan_all (new_scanner (source_of content)))

-- Read
unfoldable pub read : Context → ℕ → Log → Io (List Bytes)
read ctx seq log =
    if seq == 0
    then raise zero_sequence
    else attempt (World.get ctx (segment_key log.prefix seq)) (λ r. lift (decode_batch r.0))
        (λ e. if is_not_found e then raise end_of_stream else raise e)
