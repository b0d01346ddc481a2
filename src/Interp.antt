-- ===== src/Interp.antt =====
-- The tree-walking interpreter of crates/interp: its integers and its arenas.
pub mod Whole
pub mod Value
pub mod Ints
pub mod Arena
