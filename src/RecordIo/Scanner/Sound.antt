-- ===== src/RecordIo/Scanner/Sound.antt =====
-- Whatever the scanner accepts is a frame of the record that it returns, byte for byte.
use cloudy_neigh.Prelude.{
  ℕ, ◌≤◌, ◌≡◌, refl, sym, ap, ap₂, ◌∙◌, true, false, none, some, [], ◌∷◌, ◌++◌, Bytes, length, take,
  drop, arith, take-append, All, All-take, All-drop, Option, Bool, Error, inl, inr, length-take,
  length-drop, take-append-drop, leb, Bool-cases, ◌≢◌,
}
use cloudy_neigh.RecordIo.Crc.{compute_masked_crc}
use cloudy_neigh.RecordIo.Frame.{
  header, footer, frame, header_size, footer_size, le_bytes, le_value, IsByte, le_bytes-le_value,
}
use cloudy_neigh.RecordIo.Scanner.{
  Source, Scanner, Status, complete, read_full, end_status, scan, read_header, check_header,
  scan_payload, on_payload, torn_or, scan_footer, current, allocate, overwrite, on_header,
}
use cloudy_neigh.RecordIo.Scanner.Accepts.{scan_live, frame-append}

pub end_status-ne-complete : (f : Option Error) (got : Bytes) → end_status f got ≢ complete
unfolding end_status
end_status-ne-complete (some e) got h = cc
end_status-ne-complete none [] h = cc
end_status-ne-complete none (b ∷ got) h = cc

-- A complete read takes the bytes that it asks for.
pub read_full_complete :
    (n : ℕ) (s s' : Source) (got : Bytes)
    → read_full n s ≡ (got, complete, s')
    → (n ≤ length s.rest) × (got ≡ take n s.rest) × (s' ≡ record s { rest = drop n s.rest })
unfolding read_full
read_full_complete n s s' got h = ground (arith, end_status-ne-complete s.failure s.rest)

torn_or_false : (st : Status) (s s' : Scanner) → torn_or st s ≢ (true, s')
torn_or_false complete s s' h = cc
torn_or_false _ s s' h = cc

le_bytes-taken :
    (k : ℕ) (bs : Bytes)
    → k ≤ length bs
    → All IsByte bs
    → le_bytes k (le_value (take k bs)) ≡ take k bs
le_bytes-taken k bs h a =
    le_bytes-le_value k (take k bs) (omega (arith, length-take k bs)) (All-take IsByte k bs a)

scan_footer_sound :
    (start n : ℕ) (s s' : Scanner)
    → scan_footer start n s ≡ (true, s')
    → All IsByte s.source.rest
    → (current s' ≡ current s) × (s.source.rest ≡ footer (current s) ++ s'.source.rest)
unfolding scan_footer read_full footer
scan_footer_sound start n s s' h a = ground (
  arith,
  le_bytes-taken footer_size s.source.rest,
  take-append-drop footer_size s.source.rest,
  end_status-ne-complete s.source.failure s.source.rest,
)

pub read_full_fits :
    (n : ℕ) (s : Source)
    → leb n (length s.rest) ≡ true
    → read_full n s ≡ (take n s.rest, complete, record s { rest = drop n s.rest })
unfolding read_full
read_full_fits n s h = rw h refl

pub read_full_short :
    (n : ℕ) (s : Source)
    → leb n (length s.rest) ≡ false
    → read_full n s ≡ (s.rest, end_status s.failure s.rest, record s { rest = [] })
unfolding read_full
read_full_short n s h = rw h refl

on_payload-ne :
    (start n : ℕ) (st : Status) (s s' : Scanner)
    → st ≢ complete
    → on_payload start n st s ≢ (true, s')
on_payload-ne start n complete s s' ne h = ne refl
on_payload-ne start n _ s s' ne h = cc

scan_payload_sound :
    (start n : ℕ) (s s' : Scanner)
    → scan_payload start n s ≡ (true, s')
    → All IsByte s.source.rest
    → (length (current s') ≡ n)
      × (s.source.rest ≡ current s' ++ (footer (current s') ++ s'.source.rest))
unfolding scan_payload
scan_payload_sound start n s s' h a = elim (Bool-cases (leb n (length s.source.rest))) [
  | inl fits ↦
      let got = take n s.source.rest in
      let s2 : Scanner = record s {
        source = record s.source { rest = drop n s.source.rest };
        array = overwrite got (allocate n s.array);
        record_len = n;
        offset = start;
      } in
      let full : length got ≡ n = ground (arith, length-take n s.source.rest) in
      let is_got : current s2 ≡ got =
        take-append n got (drop (length got) (allocate n s.array)) full in
      let (same, rest) =
        scan_footer_sound start n s2 s' (rw (read_full_fits n s.source fits) at h)
          (All-drop IsByte n s.source.rest a) in
      let same_got : current s' ≡ got = same ∙ is_got in
      rw same_got (
        full,
        sym (take-append-drop n s.source.rest)
            ∙ ap (λ l. got ++ l) (rest ∙ ap (λ r. footer r ++ s'.source.rest) is_got),
      )
  | inr short ↦ absurd (
      on_payload-ne start n (end_status s.source.failure s.source.rest) _ s'
        (end_status-ne-complete s.source.failure s.source.rest)
        (rw (read_full_short n s.source short) at h))
]

header-parts :
    (hdr : Bytes)
    → length hdr ≡ 12
    → All IsByte hdr
    → compute_masked_crc (take 8 hdr) ≡ le_value (drop 8 hdr)
    → hdr ≡ header (le_value (take 8 hdr))
unfolding header
header-parts hdr h a crc = sym (take-append-drop 8 hdr) ∙ ap₂ (λ x y. x ++ y) (sym low) (sym high)
  where
    low : le_bytes 8 (le_value (take 8 hdr)) ≡ take 8 hdr
    low = le_bytes-taken 8 hdr (omega arith) a

    high : le_bytes 4 (compute_masked_crc (le_bytes 8 (le_value (take 8 hdr)))) ≡ drop 8 hdr
    high =
        ap (λ x. le_bytes 4 (compute_masked_crc x)) low
        ∙ ap (λ n. le_bytes 4 n) crc
        ∙ le_bytes-le_value 4 (drop 8 hdr) (omega (arith, length-drop 8 hdr))
            (All-drop IsByte 8 hdr a)

check_header_sound :
    (hdr : Bytes) (go : ℕ → Scanner → Bool × Scanner) (s s' : Scanner)
    → check_header hdr go s ≡ (true, s')
    → (compute_masked_crc (take 8 hdr) ≡ le_value (drop 8 hdr))
      × (le_value (take 8 hdr) ≤ s.max_record_size)
      × (go (le_value (take 8 hdr)) s ≡ (true, s'))
unfolding check_header
check_header_sound hdr go s s' h = ground arith

on_header-ne :
    (hdr : Bytes) (st : Status) (go : ℕ → Scanner → Bool × Scanner) (s s' : Scanner)
    → st ≢ complete
    → on_header hdr st go s ≢ (true, s')
on_header-ne hdr complete go s s' ne h = ne refl
on_header-ne hdr _ go s s' ne h = cc

-- A header that lets the scanner go on is the header of the length that it goes on with.
pub read_header_sound :
    (go : ℕ → Scanner → Bool × Scanner) (s s' : Scanner)
    → read_header go s ≡ (true, s')
    → All IsByte s.source.rest
    → (n : ℕ) × (n ≤ s.max_record_size)
      × (s.source.rest ≡ header n ++ drop header_size s.source.rest)
      × (go n (record s {
        source = record s.source { rest = drop header_size s.source.rest };
        record_len = 0;
      })
          ≡ (true, s'))
unfolding read_header
read_header_sound go s s' h a = elim (Bool-cases (leb header_size (length s.source.rest))) [
  | inl fits ↦
      let hdr = take header_size s.source.rest in
      let (crc, small, gone) =
        check_header_sound hdr go _ s' (rw (read_full_fits header_size s.source fits) at h) in
      let whole : length hdr ≡ 12 = ground (arith, length-take 12 s.source.rest) in
      (
        le_value (take 8 hdr),
        small,
        sym (take-append-drop header_size s.source.rest)
            ∙ ap (λ x. x ++ drop header_size s.source.rest)
                (header-parts hdr whole (All-take IsByte header_size s.source.rest a) crc),
        gone,
      )
  | inr short ↦ absurd (
      on_header-ne s.source.rest (end_status s.source.failure s.source.rest) go _ s'
        (end_status-ne-complete s.source.failure s.source.rest)
        (rw (read_full_short header_size s.source short) at h))
]

-- What a scanner with no error before accepts, and so takes from a source of bytes, is the frame of
-- the record that it
-- returns; the record is no longer than the limit.
pub scan_sound :
    (s s' : Scanner)
    → s.error ≡ none
    → All IsByte s.source.rest
    → scan s ≡ (true, s')
    → (s.source.rest ≡ frame (current s') ++ s'.source.rest)
      × (length (current s') ≤ s.max_record_size)
scan_sound s s' ne a h =
    let (n, small, hdr, gone) =
      read_header_sound (scan_payload s.last_valid_offset) s s' (sym (scan_live s ne) ∙ h) a in
    let (len, body) =
      scan_payload_sound s.last_valid_offset n _ s' gone
        (All-drop IsByte header_size s.source.rest a) in
    (
      hdr
          ∙ ap₂ (λ k l. header k ++ l) (sym len) body
          ∙ sym (frame-append (current s') s'.source.rest),
      omega (arith, len),
    )
