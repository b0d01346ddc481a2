-- ===== src/Midir.antt =====
-- The mid-level IR of crates/midir: its data, and the downcast guard analysis of its validator.
pub mod Ir
pub mod Module
pub mod Dominators
pub mod Build
pub mod Cfg
pub mod Guards
pub mod Validate
pub mod Text
