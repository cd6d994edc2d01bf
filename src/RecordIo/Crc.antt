-- ===== src/RecordIo/Crc.antt =====
-- recordio/crc.go: masked checksums. `hash/crc32` is modelled bit by bit, with the polynomial of
-- Castagnoli in reversed order.
use Prim.Native.Nat.{bit_or, bit_xor}
use cloudy_neigh.Prelude.{
  ℕ, zero, suc, ◌+◌, ◌*◌, ◌/◌, ◌%◌, ◌^◌, ◌<◌, ◌≡◌, refl, Bytes, [], ◌∷◌, ◌==◌, if◌then◌else◌, codes,
  arith,
}

crc_bits : ℕ → ℕ → ℕ
crc_bits zero crc = crc
crc_bits (suc n) crc = crc_bits n (if crc % 2 == 1 then bit_xor (crc / 2) 0x82f63b78 else crc / 2)

crc_bytes : ℕ → Bytes → ℕ
unfolding crc_bits
crc_bytes crc [] = crc
crc_bytes crc (b ∷ bs) = crc_bytes (crc_bits 8 (bit_xor crc b)) bs

-- crc32.Checksum(data, castagnoliTable)
pub checksum : Bytes → ℕ
unfolding crc_bytes
checksum bs = bit_xor (crc_bytes 0xffff_ffff bs) 0xffff_ffff % 2 ^ 32

abbrev mask_delta : ℕ
mask_delta = 0xa282ead8

-- ((crc >> 15) | (crc << 17)) + maskDelta, on uint32
unfoldable pub compute_masked_crc : Bytes → ℕ
unfolding checksum
compute_masked_crc bs =
    let crc = checksum bs in (bit_or (crc / 2 ^ 15) (crc * 2 ^ 17 % 2 ^ 32) + mask_delta) % 2 ^ 32

-- A masked checksum is a uint32.
pub compute_masked_crc-lt : (bs : Bytes) → compute_masked_crc bs < 2 ^ 32
unfolding compute_masked_crc
compute_masked_crc-lt bs = omega arith

-- The check value of CRC-32C.
checksum_check : checksum (codes "123456789") ≡ 0xe3069283
unfolding checksum
checksum_check = refl
