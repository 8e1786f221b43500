-- ===== src/MetaCache/Changes.antt =====
-- The operations of `MetaCacheFs` of crates/star9-fs/src/metacache.rs that change the inner file system,
-- and what each drops from the cache.
use star.Base.{ℕ, ◌||◌, Bytes, if◌then◌else◌}
use star.Core.Error.{Result, ok, err}
use star.Core.Mode.{FileMode, Time, contains}
use star.Core.Mode
use star.Fs.Backend.{Backend}
use star.MetaCache.{Cache, invalidate, invalidate_dir, invalidate_parent_listing}
use star.MetaCache.Ops.{MetaCacheFs, MetaCacheFile, Exec, new_file}

-- `invalidate(name)`, then `invalidate_parent_listing(name)`.
unfoldable pub drop_entry : Bytes → Cache → Cache
drop_entry name cache = invalidate_parent_listing name (invalidate name cache)

unfoldable pub drop_tree : Bytes → Cache → Cache
drop_tree name cache = invalidate_parent_listing name (invalidate_dir name cache)

unfoldable pub drop_renamed : Bytes → Bytes → Cache → Cache
drop_renamed old new cache =
    invalidate_parent_listing new
      (invalidate_parent_listing old (invalidate_dir new (invalidate_dir old cache)))

unfoldable pub drop_opened : Bytes → ℕ → Cache → Cache
unfolding drop_entry
drop_opened name flags cache =
    if contains flags Mode.create || contains flags Mode.trunc then drop_entry name cache else cache

module _ {sys : Backend} where
  -- What follows the call of the inner file system: only after a success something is dropped.
  unfoldable pub settle :
      {A : Type 0}
      → (Cache → Cache)
      → MetaCacheFs sys
      → Result A × sys.Fs
      → Result A × MetaCacheFs sys
  settle drops s (ok a, fs) = (ok a, record s { inner = fs; cache = drops s.cache })
  settle drops s (err e, fs) = (err e, record s { inner = fs })

  unfoldable pub mutate : {A : Type 0} → (sys.Fs → Result A × sys.Fs) → (Cache → Cache) → Exec sys A
  unfolding settle
  mutate m drops s = settle drops s (m s.inner)

  unfoldable pub wrap :
      Bytes → Result sys.File × MetaCacheFs sys → Result (MetaCacheFile sys.File) × MetaCacheFs sys
  wrap name (ok f, s) = (ok (new_file name f), s)
  wrap name (err e, s) = (err e, s)

  unfoldable pub open_file : Bytes → ℕ → FileMode → Exec sys (MetaCacheFile sys.File)
  unfolding mutate wrap drop_opened
  open_file name flags perm s =
      wrap name (mutate (sys.open_file name flags perm) (drop_opened name flags) s)

  unfoldable pub create : Bytes → Exec sys (MetaCacheFile sys.File)
  unfolding mutate wrap drop_entry
  create name s = wrap name (mutate (sys.create name) (drop_entry name) s)

  unfoldable pub mkdir : Bytes → FileMode → Exec sys (Unit {0})
  unfolding mutate drop_entry
  mkdir name perm = mutate (sys.mkdir name perm) (drop_entry name)

  unfoldable pub remove : Bytes → Exec sys (Unit {0})
  unfolding mutate drop_tree
  remove name = mutate (sys.remove name) (drop_tree name)

  unfoldable pub rename : Bytes → Bytes → Exec sys (Unit {0})
  unfolding mutate drop_renamed
  rename old new = mutate (sys.rename old new) (drop_renamed old new)

  unfoldable pub link : Bytes → Bytes → Exec sys (Unit {0})
  unfolding mutate drop_entry
  link old new = mutate (sys.link old new) (drop_entry new)

  unfoldable pub chmod : Bytes → FileMode → Exec sys (Unit {0})
  unfolding mutate drop_entry
  chmod name mode = mutate (sys.chmod name mode) (drop_entry name)

  unfoldable pub chown : Bytes → ℕ → ℕ → Exec sys (Unit {0})
  unfolding mutate drop_entry
  chown name uid gid = mutate (sys.chown name uid gid) (drop_entry name)

  unfoldable pub chtimes : Bytes → Time → Exec sys (Unit {0})
  unfolding mutate drop_entry
  chtimes name mtime = mutate (sys.chtimes name mtime) (drop_entry name)

  unfoldable pub truncate : Bytes → ℕ → Exec sys (Unit {0})
  unfolding mutate drop_entry
  truncate name size = mutate (sys.truncate name size) (drop_entry name)

  unfoldable pub symlink : Bytes → Bytes → Exec sys (Unit {0})
  unfolding mutate drop_entry
  symlink old new = mutate (sys.symlink old new) (drop_entry new)
