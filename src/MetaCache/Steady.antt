-- ===== src/MetaCache/Steady.antt =====
-- What reads through the cache of crates/star9-fs/src/metacache.rs rely on in the file system that it
-- wraps, and the keys that a change is about.
use star.Base.{ℕ, ◌≡◌, Bool, true, ◌&&◌, ◌||◌, Bytes, bytes_eq}
use star.Core.Mode.{FileMode, Time, contains}
use star.Core.Mode
use star.Core.Context
use star.Core.Context.{FsContext, no_follow}
use star.Fs.Backend.{Backend}
use star.MetaCache.Keys.{CacheKey, CacheKind, key_eq, same_or_below}
use star.MetaCache.{CachePayload, normalize, parent_key}

-- What a key stands for in a state of the file system.
abbrev answer_at : (sys : Backend) → Bytes → CacheKind → sys.Fs → CachePayload
answer_at sys path CacheKind.stat fs = CachePayload.metadata (sys.stat Context.new path fs).0
answer_at sys path CacheKind.lstat fs =
    CachePayload.metadata (sys.lstat (no_follow Context.new) path fs).0
answer_at sys path CacheKind.read_dir fs =
    CachePayload.read_dir (sys.read_dir Context.new path fs).0

abbrev pub answer : (sys : Backend) → CacheKey → sys.Fs → CachePayload
answer sys key fs = answer_at sys key.path key.kind fs

abbrev pub at_name : Bytes → CacheKey → Bool
at_name name key = bytes_eq key.path (normalize name) || key_eq (parent_key name) key

abbrev pub at_tree : Bytes → CacheKey → Bool
at_tree name key = same_or_below (normalize name) key.path || key_eq (parent_key name) key

abbrev pub at_either : Bytes → Bytes → CacheKey → Bool
at_either old new key = at_tree old key || at_tree new key

abbrev pub at_opened : Bytes → ℕ → CacheKey → Bool
at_opened name flags key =
    (contains flags Mode.create || contains flags Mode.trunc) && at_name name key

-- Reads change nothing, and a context matters in whether links are followed only.
pub record IsSteady (sys : Backend) : Type 0 where
  pub stat_pure : (ctx : FsContext) (name : Bytes) (fs : sys.Fs) → (sys.stat ctx name fs).1 ≡ fs
  pub lstat_pure : (ctx : FsContext) (name : Bytes) (fs : sys.Fs) → (sys.lstat ctx name fs).1 ≡ fs
  pub dir_pure : (ctx : FsContext) (name : Bytes) (fs : sys.Fs) → (sys.read_dir ctx name fs).1 ≡ fs
  pub stat_context :
      (ctx : FsContext) (name : Bytes) (fs : sys.Fs)
      → ctx.follow_symlinks ≡ true
      → (sys.stat ctx name fs).0 ≡ (sys.stat Context.new name fs).0
  pub lstat_context :
      (ctx : FsContext) (name : Bytes) (fs : sys.Fs)
      → (sys.lstat ctx name fs).0 ≡ (sys.lstat (no_follow Context.new) name fs).0
  pub dir_context :
      (ctx : FsContext) (name : Bytes) (fs : sys.Fs)
      → (sys.read_dir ctx name fs).0 ≡ (sys.read_dir Context.new name fs).0
