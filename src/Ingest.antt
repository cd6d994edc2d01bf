-- ===== src/Ingest.antt =====
-- ingest/: writing mutations to a log, and flushing the log into segments.
pub mod Messages
pub mod Flush
pub mod Stream
pub mod Client
pub mod Gathers
