-- ===== src/P9/Server.antt =====
-- `NinePServer` of crates/star9-protocol/src/p9.rs: the requests of 9P over a file system.
-- The server's locks serialise the requests; a handler is a step of the whole state.
pub mod State
pub mod Walk
pub mod Io
pub mod Names
pub mod Handle
pub mod Keeps
pub mod Safe
pub mod Effects
pub mod Others
