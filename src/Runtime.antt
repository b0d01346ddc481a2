-- ===== src/Runtime.antt =====
-- crates/runtime/src/lib.rs and crates/rt-abi/src/lib.rs: bet's runtime.
pub mod Outcome
pub mod Memory
pub mod Typed
pub mod Bump
pub mod Cribs
pub mod Stash
pub mod DynVec
pub mod Rng
pub mod Boundaries
