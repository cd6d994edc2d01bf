-- ===== src/RecordIo/Scanner/Torn.antt =====
-- A write that was cut off: every proper part of a frame from its start is reported as torn.
use cloudy_neigh.Prelude.{
  ℕ, ◌+◌, ◌-◌, ◌^◌, ◌≤◌, ◌<◌, ◌≡◌, refl, ap, ◌∙◌, false, none, some, [], ◌∷◌, ◌++◌, Bytes, length,
  take, arith, Option, Bool, Error, inl, inr, torn_write, length-take, leb, Bool-cases,
  take-append_ge,
}
use cloudy_neigh.RecordIo.Frame.{
  header, footer, frame, header_size, footer_size, length-header, length-footer, length-frame,
}
use cloudy_neigh.RecordIo.Scanner.{
  Source, Scanner, read_full, end_status, scan, read_header, scan_payload, on_payload, on_footer,
  scan_footer, on_header,
}
use cloudy_neigh.RecordIo.Scanner.Accepts.{scan_live, read_full-append, read_header-header}
use cloudy_neigh.RecordIo.Scanner.Sound.{read_full_short}

abbrev pub IsTorn : Bool × Scanner → Type 0
IsTorn (b, s) = (b ≡ false) × (s.error ≡ some torn_write)

payload-IsTorn :
    (start n : ℕ) (got : Bytes) (s : Scanner) → IsTorn (on_payload start n (end_status none got) s)
unfolding end_status
payload-IsTorn start n [] s = (refl, refl)
payload-IsTorn start n (b ∷ got) s = (refl, refl)

footer-IsTorn :
    (start n : ℕ) (foot got : Bytes) (s : Scanner)
    → IsTorn (on_footer start n foot (end_status none got) s)
unfolding end_status
footer-IsTorn start n foot [] s = (refl, refl)
footer-IsTorn start n foot (b ∷ got) s = (refl, refl)

header-IsTorn :
    (hdr got : Bytes) (go : ℕ → Scanner → Bool × Scanner) (s : Scanner)
    → 0 < length got
    → IsTorn (on_header hdr (end_status none got) go s)
unfolding end_status
header-IsTorn hdr [] go s h = absurd (omega arith)
header-IsTorn hdr (b ∷ got) go s h = (refl, refl)

-- A read of more bytes than there are.
read_full_less :
    (n : ℕ) (s : Source)
    → length s.rest < n
    → s.failure ≡ none
    → read_full n s ≡ (s.rest, end_status none s.rest, record s { rest = [] })
read_full_less n s h f =
    read_full_short n s (ground arith)
    ∙ ap (λ (x : Option Error). (s.rest, end_status x s.rest, record s { rest = [] })) f

scan_footer-IsTorn :
    (start n : ℕ) (s : Scanner)
    → length s.source.rest < footer_size
    → s.source.failure ≡ none
    → IsTorn (scan_footer start n s)
unfolding scan_footer
scan_footer-IsTorn start n s h f =
    rw (read_full_less footer_size s.source h f)
      (footer-IsTorn start n s.source.rest s.source.rest _)

scan_payload-IsTorn :
    (start k : ℕ) (r : Bytes) (s : Scanner)
    → s.source.failure ≡ none
    → s.source.rest ≡ take k (r ++ footer r)
    → k < length r + footer_size
    → IsTorn (scan_payload start (length r) s)
unfolding scan_payload
scan_payload-IsTorn start k r s f e h = elim (Bool-cases (leb (length r) k)) [
  | inl past ↦
      let left = take (k - length r) (footer r) in
      rw
        (read_full-append (length r) r left s.source refl
          (e ∙ take-append_ge k r (footer r) (ground arith)))
        (scan_footer-IsTorn start (length r) _
          (omega (arith, length-take (k - length r) (footer r), length-footer r)) f)
  | inr short ↦
      rw (read_full_less (length r) s.source (ground (arith, length-take k (r ++ footer r), e)) f)
        (payload-IsTorn start (length r) s.source.rest _)
]

read_header-IsTorn :
    (go : ℕ → Scanner → Bool × Scanner) (s : Scanner)
    → s.source.failure ≡ none
    → 0 < length s.source.rest
    → length s.source.rest < header_size
    → IsTorn (read_header go s)
unfolding read_header
read_header-IsTorn go s f lo hi =
    rw (read_full_less header_size s.source hi f)
      (header-IsTorn s.source.rest s.source.rest go _ lo)

take-frame :
    (k : ℕ) (r : Bytes)
    → 12 ≤ k
    → take k (frame r) ≡ header (length r) ++ take (k - 12) (r ++ footer r)
unfolding frame
take-frame k r h =
    take-append_ge k (header (length r)) (r ++ footer r) (omega (arith, length-header (length r)))
    ∙ ap (λ m. header (length r) ++ take (k - m) (r ++ footer r)) (length-header (length r))

-- With no error before, a source that holds a proper part of a frame of a record that is not too
-- long, from its start and not empty, and no more, is reported as torn.
pub scan-IsTorn :
    (k : ℕ) (r : Bytes) (s : Scanner)
    → s.error ≡ none
    → s.source.failure ≡ none
    → length r < 2 ^ 64
    → length r ≤ s.max_record_size
    → 0 < k
    → k < length (frame r)
    → s.source.rest ≡ take k (frame r)
    → IsTorn (scan s)
scan-IsTorn k r s ne f big small lo hi e = rw (scan_live s ne) (elim (Bool-cases (leb 12 k)) [
  | inl past ↦
      let split = e ∙ take-frame k r (ground arith) in
      rw
        (read_header-header (length r) (take (k - 12) (r ++ footer r))
          (scan_payload s.last_valid_offset) s big small split)
        (scan_payload-IsTorn s.last_valid_offset (k - 12) r _ f refl
          (omega (arith, length-frame r)))
  | inr short ↦
      let len : length s.source.rest ≡ k = ap length e ∙ ground (arith, length-take k (frame r)) in
      read_header-IsTorn (scan_payload s.last_valid_offset) s f (ground arith) (ground arith)
])
