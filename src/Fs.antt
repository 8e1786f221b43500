-- ===== src/Fs.antt =====
-- The traits `FileSystem` and `FileHandle` of crates/star9-fs/src/lib.rs, as the 9P server calls
-- them. A file system is a trait object there, so it is a parameter here: any type of states with
-- these operations. Each call returns its result with the next state, and a call on an open file
-- also the file's next state.
pub mod Backend
use star.Base.{ℕ, List, Bytes}
use star.Core.Error.{Result}
use star.Core.Mode.{FileMode, Metadata, DirEntry, Time}

pub record FileSystem : Type 1 where
  pub Fs : Type 0
  pub File : Type 0
  -- `lstat(&FsContext::new().no_follow(), path)`
  pub lstat : Bytes → Fs → Result Metadata × Fs
  -- `read_dir(&FsContext::new(), path)`
  pub read_dir : Bytes → Fs → Result (List DirEntry) × Fs
  pub open_file : Bytes → ℕ → FileMode → Fs → Result File × Fs
  pub mkdir : Bytes → FileMode → Fs → Result (Unit {0}) × Fs
  pub remove : Bytes → Fs → Result (Unit {0}) × Fs
  pub rename : Bytes → Bytes → Fs → Result (Unit {0}) × Fs
  pub link : Bytes → Bytes → Fs → Result (Unit {0}) × Fs
  pub chmod : Bytes → FileMode → Fs → Result (Unit {0}) × Fs
  pub chown : Bytes → ℕ → ℕ → Fs → Result (Unit {0}) × Fs
  pub chtimes : Bytes → Time → Fs → Result (Unit {0}) × Fs
  pub truncate : Bytes → ℕ → Fs → Result (Unit {0}) × Fs
  pub symlink : Bytes → Bytes → Fs → Result (Unit {0}) × Fs
  pub readlink : Bytes → Fs → Result Bytes × Fs
  pub set_xattr : Bytes → Bytes → Bytes → Fs → Result (Unit {0}) × Fs
  pub get_xattr : Bytes → Bytes → Fs → Result Bytes × Fs
  pub list_xattrs : Bytes → Fs → Result (List Bytes) × Fs
  -- Calls on an open file; `file_read_at` returns the bytes that were read.
  pub file_stat : File → Fs → Result Metadata × File × Fs
  pub file_read_at : ℕ → ℕ → File → Fs → Result Bytes × File × Fs
  pub file_write_at : Bytes → ℕ → File → Fs → Result ℕ × File × Fs
  pub file_sync : File → Fs → Result (Unit {0}) × File × Fs
  pub file_close : File → Fs → Result (Unit {0}) × File × Fs
  -- `SystemTime::now()`
  pub now : Fs → Time
