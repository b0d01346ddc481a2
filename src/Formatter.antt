-- ===== src/Formatter.antt =====
-- crates/fmt/src/lib.rs: the parts of the formatter that are modelled.
pub mod Literals
pub mod RoundTrip
