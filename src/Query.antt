-- ===== src/Query.antt =====
-- query/: the documents of a branch in memory.
pub mod Numbers
pub mod Table
pub mod Loader
pub mod Engine
