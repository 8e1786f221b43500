-- ===== src/Task.antt =====
-- Tasks of crates/star9-task/src/lib.rs.
pub mod Fds
pub mod Below
pub mod Reach
pub mod Renumber
pub mod State
pub mod Registry
pub mod Fields
pub mod Numbered
pub mod Runs
pub mod Numbers
pub mod Root
