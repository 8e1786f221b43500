-- ===== src/MetaCache/Drops.antt =====
-- What each change drops from the cache of crates/star9-fs/src/metacache.rs.
use star.Base.{◌≡◌, Bool, true, false, ◌&&◌, none, if◌then◌else◌}
use star.Core.Mode
use star.MetaCache.Keys.{CacheKey, get}
use star.MetaCache.{Cache}
use star.Core.Error.{ok}
use star.Fs.Backend.{Backend}
use star.MetaCache.Ops.{MetaCacheFs}
use star.MetaCache.Run.{Call, Outcome}
use star.MetaCache.Changes
use star.MetaCache.Steady.{at_name, at_tree, at_either, at_opened}

-- Nothing is left of the keys that a test picks, and the others are as they were.
abbrev pub Drops : (CacheKey → Bool) → Cache → Cache → Type 0
Drops seen before after =
    (key : CacheKey) → get key after ≡ (if seen key then none else get key before)

-- The keys that a change is about.
abbrev pub touched : Call → CacheKey → Bool
touched (Call.create name) = at_name name
touched (Call.open_file name flags perm) = at_opened name flags
touched (Call.mkdir name perm) = at_name name
touched (Call.remove name) = at_tree name
touched (Call.rename old new) = at_either old new
touched (Call.link old new) = at_name new
touched (Call.symlink old new) = at_name new
touched (Call.chmod name mode) = at_name name
touched (Call.chown name uid gid) = at_name name
touched (Call.chtimes name mtime) = at_name name
touched (Call.truncate name size) = at_name name
touched _ = λ key. false

abbrev pub IsChange : Call → Type 0
IsChange (Call.stat ctx name) = ⊥
IsChange (Call.lstat ctx name) = ⊥
IsChange (Call.read_dir ctx name) = ⊥
IsChange _ = Unit

abbrev pub succeeds : {F : Type 0} → Outcome F → Bool
succeeds (Outcome.opened (ok f)) = true
succeeds (Outcome.done (ok u)) = true
succeeds _ = false

module _ {sys : Backend} where
  -- What is dropped after a success only.
  abbrev pub DropsAfter :
      (CacheKey → Bool) → MetaCacheFs sys → Outcome sys.File × MetaCacheFs sys → Type 0
  DropsAfter seen s (out, s') =
      (key : CacheKey)
      → get key s'.cache ≡ (if succeeds out && seen key then none else get key s.cache)
