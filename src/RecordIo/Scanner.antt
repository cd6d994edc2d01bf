-- ===== src/RecordIo/Scanner.antt =====
-- recordio/scanner.go: the reader of frames. The buffered reader below it is the bytes that are
-- still to come; where they end it answers EOF, or with an error of its own.
pub mod Accepts
pub mod Sound
pub mod Torn
pub mod Skips
use cloudy_neigh.Prelude.{
  ℕ, zero, suc, ◌+◌, ◌-◌, ◌*◌, ◌%◌, ◌^◌, Bool, true, false, Option, none, some, List, [], ◌∷◌, ◌++◌,
  Bytes, length, take, drop, replicate, ltb, leb, ◌==◌, min, if◌then◌else◌, Error, torn_write,
  header_corrupted, record_too_large, data_corrupted, not,
}
use cloudy_neigh.RecordIo.Crc.{compute_masked_crc}
use cloudy_neigh.RecordIo.Frame.{header_size, footer_size, frame_overhead, le_value}

pub record Source : Type 0 where
  pub rest : Bytes
  pub failure : Option Error

-- The error of `io.ReadFull`: none, EOF, ErrUnexpectedEOF, or another.
pub data Status : Type 0 where
  complete eof unexpected_eof : Status
  failed : Error → Status

-- The end of a source, behind as many bytes as came.
unfoldable pub end_status : Option Error → Bytes → Status
end_status (some e) got = failed e
end_status none [] = eof
end_status none (b ∷ got) = unexpected_eof

-- io.ReadFull: the bytes that came, the error, and the source behind them.
unfoldable pub read_full : ℕ → Source → Bytes × Status × Source
unfolding end_status
read_full n s =
    if leb n (length s.rest)
    then (take n s.rest, complete, record s { rest = drop n s.rest })
    else (s.rest, end_status s.failure s.rest, record s { rest = [] })

-- The bytes of a buffer, or of an object of the store.
abbrev pub source_of : Bytes → Source
source_of bs = record { rest = bs; failure = none }

-- `array` is what `buf` has room for, and the record is its first `record_len` bytes.
pub record Scanner : Type 0 where
  pub source : Source
  pub array : Bytes
  pub record_len : ℕ
  pub offset : ℕ
  pub last_valid_offset : ℕ
  pub max_record_size : ℕ
  pub error : Option Error

abbrev pub default_max_record_size : ℕ
default_max_record_size = 64 * 1024 * 1024

-- NewScanner
abbrev pub new_scanner : Source → Scanner
new_scanner r = record {
  source = r;
  array = [];
  record_len = 0;
  offset = 0;
  last_valid_offset = 0;
  max_record_size = default_max_record_size;
  error = none;
}

-- s.Record()
abbrev pub current : Scanner → Bytes
current s = take s.record_len s.array

-- `s.err = e; return false`
abbrev pub fail : Error → Scanner → Bool × Scanner
fail e s = (false, record s { error = some e })

-- EOF and ErrUnexpectedEOF in the middle of a frame.
abbrev pub torn_or : Status → Scanner → Bool × Scanner
torn_or (failed e) s = fail e s
torn_or _ s = fail torn_write s

-- The checks on the twelve bytes of a header, and then what is done with the length.
unfoldable pub check_header : Bytes → (ℕ → Scanner → Bool × Scanner) → Scanner → Bool × Scanner
check_header hdr go s =
    let len = le_value (take 8 hdr) in
    let crc = le_value (drop 8 hdr) in
    if not (compute_masked_crc (take 8 hdr) == crc)
    then fail header_corrupted s
    else if ltb s.max_record_size len
    then fail record_too_large s
    else go len s

-- The header came with this error; an EOF in front of it ends the file.
abbrev pub on_header : Bytes → Status → (ℕ → Scanner → Bool × Scanner) → Scanner → Bool × Scanner
on_header hdr complete go s = check_header hdr go s
on_header hdr eof go s = (false, s)
on_header hdr unexpected_eof go s = fail torn_write s
on_header hdr (failed e) go s = fail e s

-- readHeader, and then what is done with the length that it returns.
unfoldable pub read_header : (ℕ → Scanner → Bool × Scanner) → Scanner → Bool × Scanner
read_header go s =
    let (hdr, status, source) = read_full header_size s.source in
    on_header hdr status go (record s { source = source; record_len = 0 })

-- Room for `n` bytes: the array, if it is large enough, or a new one.
abbrev pub allocate : ℕ → Bytes → Bytes
allocate n array = if ltb (length array) n then replicate n 0 else array

abbrev pub overwrite : Bytes → Bytes → Bytes
overwrite got array = got ++ drop (length got) array

abbrev pub finish_frame : ℕ → ℕ → Scanner → Bool × Scanner
finish_frame start n s =
    (true, record s { last_valid_offset = (start + frame_overhead + n) % 2 ^ 64 })

abbrev pub on_footer : ℕ → ℕ → Bytes → Status → Scanner → Bool × Scanner
on_footer start n foot complete s =
    if compute_masked_crc (current s) == le_value foot
    then finish_frame start n s
    else fail data_corrupted s
on_footer start n foot status s = torn_or status s

unfoldable pub scan_footer : ℕ → ℕ → Scanner → Bool × Scanner
scan_footer start n s =
    let (foot, status, source) = read_full footer_size s.source in
    on_footer start n foot status (record s { source = source })

abbrev pub on_payload : ℕ → ℕ → Status → Scanner → Bool × Scanner
on_payload start n complete s = scan_footer start n s
on_payload start n status s = torn_or status s

-- A read of no bytes is skipped, and `read_full 0` is complete and takes none.
unfoldable pub scan_payload : ℕ → ℕ → Scanner → Bool × Scanner
scan_payload start n s =
    let (got, status, source) = read_full n s.source in
    on_payload start n status (record s {
      source = source;
      array = overwrite got (allocate n s.array);
      record_len = n;
      offset = start;
    })

abbrev pub unless_failed : (Scanner → Bool × Scanner) → Option Error → Scanner → Bool × Scanner
unless_failed go (some e) s = (false, s)
unless_failed go none s = go s

unfoldable pub scan : Scanner → Bool × Scanner
scan s = unless_failed (read_header (scan_payload s.last_valid_offset)) s.error s

-- The bytes of the record are passed over: those in the buffer are discarded, and the others are
-- skipped by a seek, which may go behind the end, or read and dropped.
unfoldable pub pass_over : ℕ → ℕ → Bool → Source → Status × Source
pass_over payload buffered seekable r =
    let r' : Source = record r { rest = drop (min payload buffered) r.rest } in
    let remain = payload - buffered in
    if ltb 0 remain
    then (if seekable
        then (complete, record r' { rest = drop remain r'.rest })
        else (let (_, status, r'') = read_full remain r' in (status, r'')))
    else (complete, r')

abbrev pub on_skip_footer : ℕ → ℕ → Status → Scanner → Bool × Scanner
on_skip_footer start n complete s =
    (true, record s { offset = start; last_valid_offset = (start + frame_overhead + n) % 2 ^ 64 })
on_skip_footer start n status s = torn_or status s

unfoldable pub skip_footer : ℕ → ℕ → Scanner → Bool × Scanner
skip_footer start n s =
    let (foot, status, source) = read_full footer_size s.source in
    on_skip_footer start n status (record s { source = source })

abbrev pub on_passed : ℕ → ℕ → Status → Scanner → Bool × Scanner
on_passed start n complete s = skip_footer start n s
on_passed start n status s = torn_or status s

unfoldable pub skip_payload : ℕ → Bool → ℕ → ℕ → Scanner → Bool × Scanner
skip_payload buffered seekable start n s =
    let (status, source) = pass_over n buffered seekable s.source in
    on_passed start n status (record s { source = source })

-- Skip, where `buffered` bytes of the source are in the buffer behind the header.
unfoldable pub skip : ℕ → Bool → Scanner → Bool × Scanner
skip buffered seekable s =
    unless_failed (read_header (skip_payload buffered seekable s.last_valid_offset)) s.error s

-- for s.Scan() { records = append(records, bytes.Clone(s.Record())) }
abbrev pub collect : (Scanner → List Bytes × Scanner) → Bool × Scanner → List Bytes × Scanner
collect go (false, s) = ([], s)
collect go (true, s) = let (rs, s') = go s in (current s ∷ rs, s')

-- The records of the loop, and the scanner behind it. A frame takes sixteen bytes at least.
unfoldable pub scan_loop : ℕ → Scanner → List Bytes × Scanner
scan_loop zero s = ([], s)
scan_loop (suc fuel) s = collect (scan_loop fuel) (scan s)

unfoldable pub scan_all : Scanner → List Bytes × Scanner
unfolding scan_loop
scan_all s = scan_loop (suc (length s.source.rest)) s
