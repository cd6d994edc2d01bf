-- ===== src/RecordIo/Scanner/Skips.antt =====
-- Skipping a record leads where scanning it leads, whatever is in the buffer and with or without a
-- seek.
use cloudy_neigh.Prelude.{
  ℕ, ◌+◌, ◌-◌, ◌%◌, ◌^◌, ◌≤◌, ◌<◌, ◌≡◌, refl, ap, ◌∙◌, Bool-cases, inl, inr, true, none, ◌++◌,
  Bytes, length, drop, arith, length-append, drop-append, ltb, Bool, min, drop-drop, length-drop,
  leb,
}
use cloudy_neigh.RecordIo.Frame.{footer, frame, frame_overhead, footer_size, length-footer}
use cloudy_neigh.RecordIo.Scanner.{
  Source, Scanner, complete, scan, skip, read_header, skip_payload, skip_footer, pass_over,
  unless_failed,
}
use cloudy_neigh.RecordIo.Scanner.Sound.{read_full_fits}
use cloudy_neigh.RecordIo.Scanner.Accepts.{
  frame-append, read_full-append, read_header-header, scan-frame, scanned,
}

-- Passing over a record takes its bytes from the source.
pass_over-append :
    (buffered : ℕ) (seekable : Bool) (r ys : Bytes) (s : Source)
    → s.rest ≡ r ++ ys
    → pass_over (length r) buffered seekable s ≡ (complete, record s { rest = ys })
unfolding pass_over
pass_over-append buffered seekable r ys s e =
    rw e (elim (Bool-cases (ltb 0 (length r - buffered))) [
      | inl more ↦ ground (
        arith,
        passed,
        read_full_fits (length r - buffered)
            (record s { rest = drop (min (length r) buffered) (r ++ ys) }) enough,
      )
      | inr all_there ↦ rw all_there (
          ap (λ k. (complete, record s { rest = drop k (r ++ ys) })) (ground arith)
          ∙ ap (λ l. (complete, record s { rest = l })) (drop-append (length r) r ys refl))
    ])
  where
    passed : drop (length r - buffered) (drop (min (length r) buffered) (r ++ ys)) ≡ ys
    passed =
        drop-drop (length r - buffered) (min (length r) buffered) (r ++ ys)
        ∙ ap (λ k. drop k (r ++ ys)) (omega arith)
        ∙ drop-append (length r) r ys refl

    enough : leb (length r - buffered) (length (drop (min (length r) buffered) (r ++ ys))) ≡ true
    enough = ground (arith, length-drop (min (length r) buffered) (r ++ ys), length-append r ys)

skip_footer-footer :
    (start n : ℕ) (r ys : Bytes) (s : Scanner)
    → s.source.rest ≡ footer r ++ ys
    → skip_footer start n s ≡ (
      true,
      record s {
        source = record s.source { rest = ys };
        offset = start;
        last_valid_offset = (start + frame_overhead + n) % 2 ^ 64;
      },
    )
unfolding skip_footer
skip_footer-footer start n r ys s e =
    rw (read_full-append footer_size (footer r) ys s.source (length-footer r) e) refl

skip_payload-record :
    (buffered : ℕ) (seekable : Bool) (start : ℕ) (r ys : Bytes) (s : Scanner)
    → s.source.rest ≡ r ++ (footer r ++ ys)
    → skip_payload buffered seekable start (length r) s ≡ (
      true,
      record s {
        source = record s.source { rest = ys };
        offset = start;
        last_valid_offset = (start + frame_overhead + length r) % 2 ^ 64;
      },
    )
unfolding skip_payload
skip_payload-record buffered seekable start r ys s e =
    rw (pass_over-append buffered seekable r (footer r ++ ys) s.source e)
      (skip_footer-footer start (length r) r ys _ refl)

-- With no error before, in front of a frame of a record that is not too long, `Skip` succeeds as `Scan` does, and both
-- leave the same bytes and the same offsets.
pub skip-eq-scan :
    (buffered : ℕ) (seekable : Bool) (r tail : Bytes) (s : Scanner)
    → s.error ≡ none
    → length r < 2 ^ 64
    → length r ≤ s.max_record_size
    → s.source.rest ≡ frame r ++ tail
    → ((skip buffered seekable s).0 ≡ (scan s).0)
      × ((skip buffered seekable s).1.source ≡ (scan s).1.source)
      × ((skip buffered seekable s).1.offset ≡ (scan s).1.offset)
      × ((skip buffered seekable s).1.last_valid_offset ≡ (scan s).1.last_valid_offset)
unfolding skip scanned
skip-eq-scan buffered seekable r tail s ne h k e =
    rw (scan-frame r tail s ne h k e) (rw skipped (refl, refl, refl, refl))
  where
    skipped : skip buffered seekable s ≡ (
      true,
      record s {
        source = record s.source { rest = tail };
        record_len = 0;
        offset = s.last_valid_offset;
        last_valid_offset = (s.last_valid_offset + frame_overhead + length r) % 2 ^ 64;
      },
    )
    skipped =
        ap
          (λ o.
            unless_failed (read_header (skip_payload buffered seekable s.last_valid_offset)) o s)
          ne
        ∙ read_header-header (length r) (r ++ (footer r ++ tail))
            (skip_payload buffered seekable s.last_valid_offset) s h k (e ∙ frame-append r tail)
        ∙ skip_payload-record buffered seekable s.last_valid_offset r tail _ refl
