-- ===== src/Lexer.antt =====
-- crates/frontend/src/lexer.rs: tokens, automatic statement termination and literal decoding. The raw
-- scan is generated by the logos crate; its result is the input of the model.
pub mod Token
pub mod Asi
pub mod Literals
