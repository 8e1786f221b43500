-- ===== src/Vfs.antt =====
-- The namespace of crates/star9-vfs/src/lib.rs.
pub mod Map
pub mod Bindings
pub mod Systems
pub mod Entries
pub mod Route
pub mod Lookup
pub mod Writes
pub mod Found
pub mod Matching
pub mod Laws
