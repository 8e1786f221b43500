-- ===== src/Core.antt =====
-- crates/star9-core/src/lib.rs: the value types that every other crate shares.
pub mod Error
pub mod Path
pub mod Mode
pub mod Context
