-- ===== src/Rc.antt =====
-- The rc language of crates/star9-rc/src/lib.rs.
pub mod Chars
pub mod Scan
pub mod Operators
pub mod Lex
pub mod Taken
pub mod Took
pub mod Ast
pub mod Parse
pub mod Simple
pub mod Parser
pub mod Nested
pub mod Steps
pub mod Parts
pub mod Sequences
pub mod Commands
pub mod Parsed
pub mod Passed
pub mod Tokens
pub mod Lexed
pub mod Glob
pub mod Values
pub mod Vars
pub mod Globbing
pub mod Words
pub mod Quoting
pub mod Status
pub mod Concat
pub mod Carets
pub mod Ends
pub mod Environment
