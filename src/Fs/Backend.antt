-- ===== src/Fs/Backend.antt =====
-- The trait `FileSystem` of crates/star9-fs/src/lib.rs as the file systems that wrap another one
-- call it, with the contexts that they pass on. The wrapped file system is a trait object, so it is
-- a parameter: each call returns its result with the next state.
use star.Base.{ℕ, List, Bytes}
use star.Core.Error.{Result}
use star.Core.Mode.{FileMode, Metadata, DirEntry, Time}
use star.Core.Context.{FsContext}

pub record Backend : Type 1 where
  pub Fs : Type 0
  pub File : Type 0
  pub stat : FsContext → Bytes → Fs → Result Metadata × Fs
  pub lstat : FsContext → Bytes → Fs → Result Metadata × Fs
  pub read_dir : FsContext → Bytes → Fs → Result (List DirEntry) × Fs
  -- `open`, which is a keyword here.
  pub opened : FsContext → Bytes → Fs → Result File × Fs
  pub create : Bytes → Fs → Result File × Fs
  pub open_file : Bytes → ℕ → FileMode → Fs → Result File × Fs
  pub mkdir : Bytes → FileMode → Fs → Result (Unit {0}) × Fs
  pub remove : Bytes → Fs → Result (Unit {0}) × Fs
  pub rename : Bytes → Bytes → Fs → Result (Unit {0}) × Fs
  pub link : Bytes → Bytes → Fs → Result (Unit {0}) × Fs
  pub chmod : Bytes → FileMode → Fs → Result (Unit {0}) × Fs
  pub chown : Bytes → ℕ → ℕ → Fs → Result (Unit {0}) × Fs
  pub chtimes : Bytes → Time → Fs → Result (Unit {0}) × Fs
  pub truncate : Bytes → ℕ → Fs → Result (Unit {0}) × Fs
  pub symlink : Bytes → Bytes → Fs → Result (Unit {0}) × Fs
  pub file_write : Bytes → File → Fs → Result ℕ × File × Fs
  pub file_write_at : Bytes → ℕ → File → Fs → Result ℕ × File × Fs
  pub file_close : File → Fs → Result (Unit {0}) × File × Fs
