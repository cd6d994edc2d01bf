-- ===== src/Vector.antt =====
-- vector/: the codec of half-precision numbers.
pub mod Half
