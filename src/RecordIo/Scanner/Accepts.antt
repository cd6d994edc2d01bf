-- ===== src/RecordIo/Scanner/Accepts.antt =====
-- The scanner accepts a frame, whatever stands behind it.
use cloudy_neigh.Prelude.{
  ℕ, zero, suc, ◌+◌, ◌%◌, ◌^◌, ◌≤◌, ◌<◌, ◌≡◌, refl, sym, ap, ap₂, ◌∙◌, true, false, none, List, [],
  ◌∷◌, ◌++◌, Bytes, length, arith, append_assoc, length-append, take-append, drop-append, ==_refl,
  All, Bool,
}
use cloudy_neigh.RecordIo.Crc.{compute_masked_crc, compute_masked_crc-lt}
use cloudy_neigh.RecordIo.Frame.{
  header, footer, frame, frame_overhead, header_size, footer_size, le_bytes, length-le_bytes,
  length-header, length-footer, le_value-le_bytes, length-frame,
}
use cloudy_neigh.RecordIo.Scanner.{
  Source, Scanner, complete, read_full, scan, read_header, check_header, scan_payload, scan_footer,
  current, allocate, overwrite, scan_loop, scan_all, unless_failed, finish_frame, end_status,
  default_max_record_size, new_scanner, source_of, eof,
}

pub read_full-append :
    (n : ℕ) (xs ys : Bytes) (s : Source)
    → length xs ≡ n
    → s.rest ≡ xs ++ ys
    → read_full n s ≡ (xs, complete, record s { rest = ys })
unfolding read_full
read_full-append n xs ys s h e =
    rw e (ground (arith, length-append xs ys, take-append n xs ys h, drop-append n xs ys h))

-- Behind a scan that succeeded: the record, the bytes that are left and the offsets.
unfoldable pub scanned : Scanner → ℕ → Bytes → Bytes → Scanner
scanned s n r tail = record s {
  source = record s.source { rest = tail };
  array = overwrite r (allocate n s.array);
  record_len = n;
  offset = s.last_valid_offset;
  last_valid_offset = (s.last_valid_offset + frame_overhead + n) % 2 ^ 64;
}

pub current-scanned : (s : Scanner) (r tail : Bytes) → current (scanned s (length r) r tail) ≡ r
unfolding scanned
current-scanned s r tail = take-append (length r) r _ refl

check_header-header :
    (n : ℕ) (go : ℕ → Scanner → Bool × Scanner) (s : Scanner)
    → n < 2 ^ 64
    → n ≤ s.max_record_size
    → check_header (header n) go s ≡ go n s
unfolding check_header header
check_header-header n go s h k =
    let crc = compute_masked_crc (le_bytes 8 n) in
    ground (
      arith,
      take-append 8 (le_bytes 8 n) (le_bytes 4 crc) (length-le_bytes 8 n),
      drop-append 8 (le_bytes 8 n) (le_bytes 4 crc) (length-le_bytes 8 n),
      le_value-le_bytes 8 n (omega arith),
      le_value-le_bytes 4 crc (omega (arith, compute_masked_crc-lt (le_bytes 8 n))),
    )

-- A header of a length in range is passed, and the length is gone on with.
pub read_header-header :
    (n : ℕ) (ys : Bytes) (go : ℕ → Scanner → Bool × Scanner) (s : Scanner)
    → n < 2 ^ 64
    → n ≤ s.max_record_size
    → s.source.rest ≡ header n ++ ys
    → read_header go s ≡ go n (record s { source = record s.source { rest = ys }; record_len = 0 })
unfolding read_header
read_header-header n ys go s h k e =
    rw (read_full-append header_size (header n) ys s.source (length-header n) e)
      (check_header-header n go _ h k)

scan_footer-footer :
    (start n : ℕ) (ys : Bytes) (s : Scanner)
    → s.source.rest ≡ footer (current s) ++ ys
    → scan_footer start n s
      ≡ finish_frame start n (record s { source = record s.source { rest = ys } })
unfolding scan_footer
scan_footer-footer start n ys s e =
    rw (read_full-append footer_size (footer (current s)) ys s.source (length-footer (current s)) e)
      (unfold footer in
        rw
          (le_value-le_bytes 4 (compute_masked_crc (current s))
            (omega (arith, compute_masked_crc-lt (current s))))
          (rw (==_refl (compute_masked_crc (current s))) refl))

scan_payload-record :
    (start : ℕ) (r ys : Bytes) (s : Scanner)
    → s.source.rest ≡ r ++ (footer r ++ ys)
    → scan_payload start (length r) s
      ≡ finish_frame start (length r) (record s {
        source = record s.source { rest = ys };
        array = overwrite r (allocate (length r) s.array);
        record_len = length r;
        offset = start;
      })
unfolding scan_payload
scan_payload-record start r ys s e =
    rw (read_full-append (length r) r (footer r ++ ys) s.source refl e) (
      scan_footer-footer start (length r) ys _
        (ap (λ x. footer x ++ ys) (sym (take-append (length r) r _ refl))))

pub frame-append :
    (r tail : Bytes) → frame r ++ tail ≡ header (length r) ++ (r ++ (footer r ++ tail))
unfolding frame
frame-append r tail = simp append_assoc

pub scan_live :
    (s : Scanner) → s.error ≡ none → scan s ≡ read_header (scan_payload s.last_valid_offset) s
unfolding scan
scan_live s ne = ap (λ o. unless_failed (read_header (scan_payload s.last_valid_offset)) o s) ne

-- With no error before, a frame of a record that is not too long is scanned, and what stands behind
-- it is left.
pub scan-frame :
    (r tail : Bytes) (s : Scanner)
    → s.error ≡ none
    → length r < 2 ^ 64
    → length r ≤ s.max_record_size
    → s.source.rest ≡ frame r ++ tail
    → scan s ≡ (true, scanned s (length r) r tail)
unfolding scanned
scan-frame r tail s ne h k e =
    scan_live s ne
    ∙ read_header-header (length r) (r ++ (footer r ++ tail)) (scan_payload s.last_valid_offset) s h
        k (e ∙ frame-append r tail)
    ∙ scan_payload-record s.last_valid_offset r tail _ refl

read_full_end :
    (n : ℕ) (s : Source)
    → s.rest ≡ []
    → s.failure ≡ none
    → read_full (suc n) s ≡ ([], eof, record s { rest = [] })
unfolding read_full end_status
read_full_end n s e f = rw e (rw f (ground arith))

-- The end of the source, in front of a frame: no record and no error.
pub scan_end :
    (s : Scanner)
    → s.error ≡ none
    → s.source.rest ≡ []
    → s.source.failure ≡ none
    → scan s ≡ (false, record s { source = record s.source { rest = [] }; record_len = 0 })
scan_end s ne e f = scan_live s ne ∙ (unfold read_header in simp (read_full_end 11 s.source e f))

abbrev pub frames : List Bytes → Bytes
frames [] = []
frames (r ∷ rs) = frame r ++ frames rs

-- The records fit the scanner.
abbrev pub Fit : ℕ → List Bytes → Type 0
Fit max rs = All (λ r. length r ≤ max) rs

length-scanned :
    (s : Scanner) (n : ℕ) (r tail : Bytes) → length (scanned s n r tail).source.rest ≡ length tail
unfolding scanned
length-scanned s n r tail = refl

scan_loop-frames :
    (rs : List Bytes) (fuel : ℕ) (s : Scanner)
    → s.error ≡ none
    → s.max_record_size < 2 ^ 64
    → Fit s.max_record_size rs
    → s.source.failure ≡ none
    → s.source.rest ≡ frames rs
    → length (frames rs) < fuel
    → ((scan_loop fuel s).0 ≡ rs) × ((scan_loop fuel s).1.error ≡ none)
unfolding scan_loop scanned
scan_loop-frames rs zero s ne b fit f e h = absurd (omega arith)
scan_loop-frames [] (suc fuel) s ne b fit f e h = rw (scan_end s ne e f) (refl, ne)
scan_loop-frames (r ∷ rs) (suc fuel) s ne b (p, fit) f e h =
    let s' = scanned s (length r) r (frames rs) in
    let (got, clean) =
      scan_loop-frames rs fuel s' ne b fit f refl
        (omega (arith, length-frame r, length-append (frame r) (frames rs))) in
    rw (scan-frame r (frames rs) s ne (omega arith) p e)
      (ap₂ (λ x l. x ∷ l) (take-append (length r) r _ refl) got, clean)

-- The loop over the frames of records gives the records, and ends with no error.
pub scan_all-frames :
    (rs : List Bytes)
    → Fit default_max_record_size rs
    → ((scan_all (new_scanner (source_of (frames rs)))).0 ≡ rs)
      × ((scan_all (new_scanner (source_of (frames rs)))).1.error ≡ none)
unfolding scan_all
scan_all-frames rs fit =
    scan_loop-frames rs (suc (length (frames rs))) (new_scanner (source_of (frames rs))) refl
      (omega arith) fit refl refl (omega arith)
