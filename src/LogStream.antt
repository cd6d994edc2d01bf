-- ===== src/LogStream.antt =====
-- logstream/log.go: a log of batches of records, one object of the store for each batch.
pub mod Keys
pub mod Jump
pub mod Log
