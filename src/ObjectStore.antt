-- ===== src/ObjectStore.antt =====
-- objectstore/objectstore.go: what every object store speaks of.
pub mod Defs
pub mod Generation
pub mod Mem
pub mod World
pub mod Document
