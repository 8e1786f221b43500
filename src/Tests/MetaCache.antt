-- ===== src/Tests/MetaCache.antt =====
-- Runs of the cache of crates/star9-fs/src/metacache.rs over a file system that is a list of paths.
use star.Base.{
  ◌+◌, ◌/◌, ◌<◌, ◌≡◌, refl, ◌≢◌, Bool, true, false, not, ◌&&◌, ◌||◌, ltb, leb, List, [], ◌∷◌, Bytes,
  bytes_eq, codes, none, some, if◌then◌else◌,
}
use star.Core.Error.{Error, ErrorKind, Result, ok, err}
use star.Core.Mode.{Metadata, dir_metadata}
use star.Core.Context
use star.Fs.Backend.{Backend}
use star.MetaCache.Keys.{CacheKey, CacheKind, get, insert, remove, key_eq}
use star.MetaCache.{
  invalidate_all, Cache, CachePayload, normalize, get_cached, use_entry, is_due, set_cached,
  entry_of, is_error,
}
use star.MetaCache.Ops.{MetaCacheFs, with_ttl, read_dir_context}
use star.MetaCache.Run.{Call, Event}
use star.MetaCache.Expiry.{lifetime, get_cached-set_cached, get_cached-refreshing, looked_up}
use star.Core.Path.{dot}

abbrev has : Bytes → List Bytes → Bool
has path [] = false
has path (p ∷ ps) = bytes_eq path p || has path ps

abbrev found : Bytes → List Bytes → Result Metadata
found path ps =
    if has path ps then ok (dir_metadata path 0o755) else err (Error.kind ErrorKind.not_found)

abbrev refused : {A : Type 0} → List Bytes → Result A × List Bytes
refused ps = (err (Error.kind ErrorKind.permission_denied), ps)

-- Directories can be made, and nothing else.
abbrev dirs_fs : Backend
dirs_fs = record {
  Fs = List Bytes;
  File = Unit {0};
  stat = λ ctx name ps. (found (normalize name) ps, ps);
  lstat = λ ctx name ps. (found (normalize name) ps, ps);
  read_dir = λ ctx name ps. (ok [], ps);
  opened = λ ctx name ps. refused ps;
  create = λ name ps. refused ps;
  open_file = λ name flags perm ps. refused ps;
  mkdir = λ name perm ps. (ok tt, normalize name ∷ ps);
  remove = λ name ps. refused ps;
  rename = λ old new ps. refused ps;
  link = λ old new ps. refused ps;
  chmod = λ name mode ps. refused ps;
  chown = λ name uid gid ps. refused ps;
  chtimes = λ name mtime ps. refused ps;
  truncate = λ name size ps. refused ps;
  symlink = λ old new ps. refused ps;
  file_write = λ content f ps. (ok 0, f, ps);
  file_write_at = λ content offset f ps. (ok 0, f, ps);
  file_close = λ f ps. (ok tt, f, ps);
}

-- A miss, a hit, a lookup that asks for a refresh, the refresh, a listing, and a hit.
abbrev events : List Event
events =
    Event.call (Call.stat Context.new (codes "a")) 0 1
    ∷ Event.call (Call.stat Context.new (codes "a")) 2 2
    ∷ Event.call (Call.stat Context.new (codes "a")) 60 60
    ∷ Event.refresh 0 70
    ∷ Event.call (Call.read_dir Context.new dot) 71 71
    ∷ Event.call (Call.stat Context.new (codes "a")) 80 80
    ∷ []

abbrev a_dir : List Bytes
a_dir = codes "a" ∷ []

-- A cache in which the listing of the root stands.
abbrev listed_root : MetaCacheFs dirs_fs
listed_root = (read_dir_context Context.new dot 0 0 (with_ttl {sys = dirs_fs} a_dir 100)).1

abbrev key : CacheKey
key = record { path = codes "a"; kind = CacheKind.stat }

abbrev missing : CachePayload
missing = CachePayload.metadata (err (Error.kind ErrorKind.not_found))

abbrev present : CachePayload
present = CachePayload.metadata (ok (dir_metadata (codes "a") 0o755))

get_cached-set_cached_example :
    (0 < 100
      → (get_cached key 40 (set_cached 100 key missing 5 [])).0 ≡ (
          if ltb 40 (5 + lifetime 100 missing)
          then some (missing, not (is_error missing) && leb (5 + 100 / 2) 40)
          else none))
    × (set_cached 0 key missing 5 [] ≡ [])
get_cached-set_cached_example = get_cached-set_cached 100 5 40 key missing []

abbrev cache : Cache
cache = (key, entry_of 100 5 present) ∷ []

get_cached-refreshing_example :
    (get_cached key 70 (looked_up ((key, 65) ∷ []) (get_cached key 60 cache).1)).0
    ≢ some (present, true)
unfolding get_cached use_entry is_due entry_of is_error get insert remove key_eq bytes_eq
get_cached-refreshing_example =
    get_cached-refreshing key 60 70 ((key, 65) ∷ []) cache {p = present} {q = present} refl

-- Nothing is left after `invalidate_all`.
cleared : get key (invalidate_all cache) ≡ none
unfolding invalidate_all get
cleared = refl
