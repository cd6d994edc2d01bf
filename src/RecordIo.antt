-- ===== src/RecordIo.antt =====
-- recordio/: records in frames with two checksums.
--   u64 length | u32 masked CRC of the length | the record | u32 masked CRC of the record
pub mod Crc
pub mod Frame
pub mod Buffered
pub mod Writer
pub mod Scanner
