-- ===== src/RecordIo/Frame.antt =====
-- The bytes of a frame, and integers in little-endian order (`encoding/binary`).
use cloudy_neigh.Prelude.{
  ℕ, zero, suc, ◌+◌, ◌*◌, ◌/◌, ◌%◌, ◌^◌, ◌<◌, ◌≡◌, refl, ap, Bytes, [], ◌∷◌, ◌++◌, length, All,
  All-append, arith, length-append,
}
use cloudy_neigh.RecordIo.Crc.{compute_masked_crc}

abbrev pub header_size : ℕ
header_size = 12

abbrev pub footer_size : ℕ
footer_size = 4

abbrev pub frame_overhead : ℕ
frame_overhead = 16

-- binary.LittleEndian.PutUint64 and PutUint32: the lowest `k` bytes of `n`
unfoldable pub le_bytes : ℕ → ℕ → Bytes
le_bytes zero n = []
le_bytes (suc k) n = (n % 256) ∷ le_bytes k (n / 256)

-- binary.LittleEndian.Uint64 and Uint32
unfoldable pub le_value : Bytes → ℕ
le_value [] = 0
le_value (b ∷ bs) = b + 256 * le_value bs

unfoldable pub header : ℕ → Bytes
header n = le_bytes 8 n ++ le_bytes 4 (compute_masked_crc (le_bytes 8 n))

unfoldable pub footer : Bytes → Bytes
footer r = le_bytes 4 (compute_masked_crc r)

-- What stands for a record in the file.
unfoldable pub frame : Bytes → Bytes
frame r = header (length r) ++ (r ++ footer r)

abbrev pub IsByte : ℕ → Type 0
IsByte b = b < 256

pub length-le_bytes : (k n : ℕ) → length (le_bytes k n) ≡ k
unfolding le_bytes
length-le_bytes zero n = refl
length-le_bytes (suc k) n = ap suc (length-le_bytes k (n / 256))

pub le_bytes-IsByte : (k n : ℕ) → All IsByte (le_bytes k n)
unfolding le_bytes
le_bytes-IsByte zero n = tt
le_bytes-IsByte (suc k) n = (omega arith, le_bytes-IsByte k (n / 256))

-- What is written is read back, if it fits.
pub le_value-le_bytes : (k n : ℕ) → n < 256 ^ k → le_value (le_bytes k n) ≡ n
unfolding le_bytes le_value
le_value-le_bytes zero n h = omega arith
le_value-le_bytes (suc k) n h = omega (arith, le_value-le_bytes k (n / 256) (omega arith))

-- What is read was written.
pub le_bytes-le_value :
    (k : ℕ) (bs : Bytes) → length bs ≡ k → All IsByte bs → le_bytes k (le_value bs) ≡ bs
unfolding le_bytes le_value
le_bytes-le_value zero [] h a = refl
le_bytes-le_value zero (b ∷ bs) h a = absurd (omega arith)
le_bytes-le_value (suc k) [] h a = absurd (omega arith)
le_bytes-le_value (suc k) (b ∷ bs) h (a, all) =
    let low : (b + 256 * le_value bs) % 256 ≡ b = omega arith in
    let high : (b + 256 * le_value bs) / 256 ≡ le_value bs = omega arith in
    rw (low, high) (ap (λ l. b ∷ l) (le_bytes-le_value k bs (omega arith) all))

pub length-header : (n : ℕ) → length (header n) ≡ header_size
unfolding header
length-header n = omega (
  arith,
  length-append (le_bytes 8 n) (le_bytes 4 (compute_masked_crc (le_bytes 8 n))),
  length-le_bytes 8 n,
  length-le_bytes 4 (compute_masked_crc (le_bytes 8 n)),
)

pub length-footer : (r : Bytes) → length (footer r) ≡ footer_size
unfolding footer
length-footer r = length-le_bytes 4 (compute_masked_crc r)

-- A frame is its record and sixteen bytes.
pub length-frame : (r : Bytes) → length (frame r) ≡ length r + frame_overhead
unfolding frame
length-frame r = omega (
  arith,
  length-append (header (length r)) (r ++ footer r),
  length-append r (footer r),
  length-header (length r),
  length-footer r,
)

-- A frame of bytes is made of bytes.
pub frame-IsByte : (r : Bytes) → All IsByte r → All IsByte (frame r)
unfolding frame header footer
frame-IsByte r a =
    let crc = compute_masked_crc (le_bytes 8 (length r)) in
    All-append IsByte (le_bytes 8 (length r) ++ le_bytes 4 crc)
      (r ++ le_bytes 4 (compute_masked_crc r))
      (All-append IsByte (le_bytes 8 (length r)) (le_bytes 4 crc) (le_bytes-IsByte 8 (length r))
        (le_bytes-IsByte 4 crc))
      (All-append IsByte r (le_bytes 4 (compute_masked_crc r)) a
        (le_bytes-IsByte 4 (compute_masked_crc r)))
