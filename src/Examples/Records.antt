-- ===== src/Examples/Records.antt =====
-- recordio/ at concrete inputs.
use cloudy_neigh.Prelude.{
  ◌+◌, ◌%◌, ◌^◌, ◌≤◌, ◌≡◌, refl, true, none, [], ◌∷◌, ◌++◌, Bytes, length, take, arith, append-nil,
  sym,
}
use cloudy_neigh.RecordIo.Frame.{frame, frame-IsByte, length-frame}
use cloudy_neigh.RecordIo.Buffered.{buffer_sink}
use cloudy_neigh.RecordIo.Writer.{Writer, new_writer, write_record}
use cloudy_neigh.RecordIo.Writer.Stream.{IsReady, stream, write_record-frame}
use cloudy_neigh.RecordIo.Scanner.{Scanner, new_scanner, source_of, scan, skip, current}
use cloudy_neigh.RecordIo.Scanner.Accepts.{scanned, scan-frame}
use cloudy_neigh.RecordIo.Scanner.Sound.{scan_sound}
use cloudy_neigh.RecordIo.Scanner.Torn.{IsTorn, scan-IsTorn}
use cloudy_neigh.RecordIo.Scanner.Skips.{skip-eq-scan}

abbrev a_record : Bytes
a_record = 1 ∷ 2 ∷ 3 ∷ []

-- A scanner in front of the record's frame.
abbrev in_front : Scanner
in_front = new_scanner (source_of (frame a_record))

alone : frame a_record ≡ frame a_record ++ []
alone = sym (append-nil (frame a_record))

scan_sound_example :
    (frame a_record
      ≡ frame (current (scanned in_front 3 a_record []))
        ++ (scanned in_front 3 a_record []).source.rest)
    × (length (current (scanned in_front 3 a_record [])) ≤ in_front.max_record_size)
scan_sound_example =
    scan_sound in_front (scanned in_front 3 a_record []) refl
      (frame-IsByte a_record (omega arith, (omega arith, (omega arith, tt))))
      (scan-frame a_record [] in_front refl (omega arith) (omega arith) alone)

scan-IsTorn_example : IsTorn (scan (new_scanner (source_of (take 14 (frame a_record)))))
scan-IsTorn_example =
    scan-IsTorn 14 a_record (new_scanner (source_of (take 14 (frame a_record)))) refl refl
      (omega arith) (omega arith) (omega arith) (omega (arith, length-frame a_record)) refl

skip-eq-scan_example :
    ((skip 2 true in_front).0 ≡ (scan in_front).0)
    × ((skip 2 true in_front).1.source ≡ (scan in_front).1.source)
    × ((skip 2 true in_front).1.offset ≡ (scan in_front).1.offset)
    × ((skip 2 true in_front).1.last_valid_offset ≡ (scan in_front).1.last_valid_offset)
skip-eq-scan_example =
    skip-eq-scan 2 true a_record [] in_front refl (omega arith) (omega arith) alone

abbrev a_writer : Writer
a_writer = new_writer buffer_sink

a_writer-IsReady : IsReady a_writer
a_writer-IsReady = record {
  no_error = refl;
  is_open = refl;
  sink_open = record { no_failure = refl; endless = refl; no_closer = refl };
}

write_record-frame_example :
    ((write_record a_record a_writer).0
      ≡ record { n = length (frame a_record); at = 0; error = none })
    × IsReady (write_record a_record a_writer).1
    × (stream (write_record a_record a_writer).1 ≡ stream a_writer ++ frame a_record)
    × ((write_record a_record a_writer).1.offset ≡ (0 + length (frame a_record)) % 2 ^ 64)
write_record-frame_example = write_record-frame a_record a_writer a_writer-IsReady
