-- ===== src/Vfs/Systems.antt =====
-- The file systems that a namespace of crates/star9-vfs/src/lib.rs binds. Each is a trait object there
-- and a number here, so their operations are parameters, on the state of all of them.
use star.Base.{ℕ, List, Bytes}
use star.Core.Error.{Result}
use star.Core.Mode.{FileMode, Metadata, DirEntry, Time}
use star.Core.Context.{FsContext}

pub record Systems : Type 1 where
  pub World : Type 0
  pub File : Type 0
  pub stat : ℕ → FsContext → Bytes → World → Result Metadata × World
  pub read_dir : ℕ → FsContext → Bytes → World → Result (List DirEntry) × World
  -- `open`, which is a keyword here.
  pub opened : ℕ → FsContext → Bytes → World → Result File × World
  pub create : ℕ → Bytes → World → Result File × World
  pub mkdir : ℕ → Bytes → FileMode → World → Result (Unit {0}) × World
  pub remove : ℕ → Bytes → World → Result (Unit {0}) × World
  pub rename : ℕ → Bytes → Bytes → World → Result (Unit {0}) × World
  pub link : ℕ → Bytes → Bytes → World → Result (Unit {0}) × World
  pub chmod : ℕ → Bytes → FileMode → World → Result (Unit {0}) × World
  pub chown : ℕ → Bytes → ℕ → ℕ → World → Result (Unit {0}) × World
  pub chtimes : ℕ → Bytes → Time → World → Result (Unit {0}) × World
  pub truncate : ℕ → Bytes → ℕ → World → Result (Unit {0}) × World
  pub symlink : ℕ → Bytes → Bytes → World → Result (Unit {0}) × World
  pub readlink : ℕ → Bytes → World → Result Bytes × World
