-- ===== src/P9.antt =====
-- crates/star9-protocol/src/p9.rs: the 9P2000.L file protocol.
pub mod Wire
pub mod Decoder
pub mod Msg
pub mod Types
pub mod Frame
pub mod Request
pub mod Response
pub mod Attr
pub mod Xattr
pub mod Dirents
pub mod Server
