-- ===== src/MetaCache/Ops.antt =====
-- The operations of `MetaCacheFs` of crates/star9-fs/src/metacache.rs over any file system. The state
-- has the refresh threads that were spawned and have not run. Each call that reads the clock takes
-- the instants as arguments, `t0` for the look into the cache and `t1` for the store.
use star.Base.{
  ℕ, Bool, true, false, List, [], ◌∷◌, ◌++◌, Bytes, codes, Option, none, some, if◌then◌else◌,
}
use star.Core.Error.{Result, ok, err}
use star.Core.Mode.{Metadata, DirEntry}
use star.Core.Context
use star.Core.Context.{FsContext, no_follow, with_read_only, with_origin}
use star.Fs.Backend.{Backend}
use star.MetaCache.Keys.{CacheKey, CacheKind}
use star.MetaCache.{
  Cache, CachePayload, CachedLookup, normalize, key_of, get_cached, set_cached, extend_expiry,
}

-- A spawned `refresh_metadata` or `refresh_dir`.
pub data Refresh : Type 0 where
  metadata : Bytes → CacheKey → Bool → Refresh
  dir : Bytes → CacheKey → Refresh

pub record MetaCacheFs (sys : Backend) : Type 0 where
  pub inner : sys.Fs
  pub ttl : ℕ
  pub cache : Cache
  pub pending : List Refresh

abbrev pub Exec : Backend → Type 0 → Type 0
Exec sys A = MetaCacheFs sys → Result A × MetaCacheFs sys

-- `MetaCacheFile`
pub record MetaCacheFile (F : Type 0) : Type 0 where
  pub path : Bytes
  pub inner : F
  pub dirty : Bool
  pub dir_entries : Option (List DirEntry)
  pub dir_offset : ℕ

unfoldable pub new_file : {F : Type 0} → Bytes → F → MetaCacheFile F
new_file path inner = record {
  path = normalize path;
  inner = inner;
  dirty = false;
  dir_entries = none;
  dir_offset = 0;
}

unfoldable pub metadata_kind : Bool → CacheKind
metadata_kind true = CacheKind.lstat
metadata_kind false = CacheKind.stat

unfoldable pub inner_stat :
    (sys : Backend) → Bool → FsContext → Bytes → sys.Fs → Result Metadata × sys.Fs
inner_stat sys true ctx name fs = sys.lstat ctx name fs
inner_stat sys false ctx name fs = sys.stat ctx name fs

unfoldable pub refresh_context : Bool → Bytes → FsContext
refresh_context true path = with_origin (no_follow Context.new) path (codes "stat")
refresh_context false path = with_origin Context.new path (codes "stat")

module _ {sys : Backend} where
  unfoldable pub with_ttl : sys.Fs → ℕ → MetaCacheFs sys
  with_ttl inner ttl = record { inner = inner; ttl = ttl; cache = []; pending = [] }

  unfoldable pub set_ttl : ℕ → MetaCacheFs sys → MetaCacheFs sys
  set_ttl ttl s = record s { ttl = ttl }

  -- `thread::spawn`, if the lookup asks for it.
  unfoldable pub schedule : Bool → Refresh → MetaCacheFs sys → MetaCacheFs sys
  schedule refresh r s = if refresh then record s { pending = s.pending ++ r ∷ [] } else s

  -- What was read from the inner file system is stored, errors too.
  unfoldable pub store_metadata :
      CacheKey → ℕ → MetaCacheFs sys → Result Metadata × sys.Fs → Result Metadata × MetaCacheFs sys
  store_metadata key now s (r, fs) = (
    r,
    record s { inner = fs; cache = set_cached s.ttl key (CachePayload.metadata r) now s.cache },
  )

  unfoldable pub store_dir :
      CacheKey
      → ℕ
      → MetaCacheFs sys
      → Result (List DirEntry) × sys.Fs
      → Result (List DirEntry) × MetaCacheFs sys
  store_dir key now s (r, fs) = (
    r,
    record s { inner = fs; cache = set_cached s.ttl key (CachePayload.read_dir r) now s.cache },
  )

  -- What `stat_context` does after its look into the cache.
  unfoldable pub serve_metadata :
      FsContext → Bytes → Bool → CacheKey → ℕ → Option CachedLookup → Exec sys Metadata
  unfolding store_metadata schedule inner_stat
  serve_metadata ctx name lstat key t1 none s =
      store_metadata key t1 s (inner_stat sys lstat ctx name s.inner)
  serve_metadata ctx name lstat key t1 (some (CachePayload.metadata r, refresh)) s =
      (r, schedule refresh (Refresh.metadata name key lstat) s)
  serve_metadata ctx name lstat key t1 (some (CachePayload.read_dir r, refresh)) s =
      let s' = schedule refresh (Refresh.metadata name key lstat) s in
      store_metadata key t1 s' (inner_stat sys lstat ctx name s'.inner)

  unfoldable pub stat_context : FsContext → Bytes → Bool → ℕ → ℕ → Exec sys Metadata
  unfolding serve_metadata metadata_kind
  stat_context ctx name lstat t0 t1 s =
      let key = key_of name (metadata_kind lstat) in
      let (found, cache) = get_cached key t0 s.cache in
      serve_metadata ctx name lstat key t1 found (record s { cache = cache })

  unfoldable pub serve_dir :
      FsContext → Bytes → CacheKey → ℕ → Option CachedLookup → Exec sys (List DirEntry)
  unfolding store_dir schedule
  serve_dir ctx name key t1 none s = store_dir key t1 s (sys.read_dir ctx name s.inner)
  serve_dir ctx name key t1 (some (CachePayload.read_dir r, refresh)) s =
      (r, schedule refresh (Refresh.dir name key) s)
  serve_dir ctx name key t1 (some (CachePayload.metadata r, refresh)) s =
      let s' = schedule refresh (Refresh.dir name key) s in
      store_dir key t1 s' (sys.read_dir ctx name s'.inner)

  unfoldable pub read_dir_context : FsContext → Bytes → ℕ → ℕ → Exec sys (List DirEntry)
  unfolding serve_dir
  read_dir_context ctx name t0 t1 s =
      let key = key_of name CacheKind.read_dir in
      let (found, cache) = get_cached key t0 s.cache in
      serve_dir ctx name key t1 found (record s { cache = cache })

  -- The `match` of a refresh on what it read: a success is stored, a failure keeps what is there.
  unfoldable pub refreshed_metadata :
      CacheKey → ℕ → MetaCacheFs sys → Result Metadata × sys.Fs → MetaCacheFs sys
  refreshed_metadata key now s (ok meta, fs) = record s {
    inner = fs;
    cache = set_cached s.ttl key (CachePayload.metadata (ok meta)) now s.cache;
  }
  refreshed_metadata key now s (err e, fs) = record s {
    inner = fs;
    cache = extend_expiry s.ttl key now s.cache;
  }

  unfoldable pub refreshed_dir :
      CacheKey → ℕ → MetaCacheFs sys → Result (List DirEntry) × sys.Fs → MetaCacheFs sys
  refreshed_dir key now s (ok entries, fs) = record s {
    inner = fs;
    cache = set_cached s.ttl key (CachePayload.read_dir (ok entries)) now s.cache;
  }
  refreshed_dir key now s (err e, fs) = record s {
    inner = fs;
    cache = extend_expiry s.ttl key now s.cache;
  }

  unfoldable pub refresh_metadata : Bytes → CacheKey → Bool → ℕ → MetaCacheFs sys → MetaCacheFs sys
  unfolding refreshed_metadata refresh_context inner_stat
  refresh_metadata path key lstat now s =
      refreshed_metadata key now s (inner_stat sys lstat (refresh_context lstat path) path s.inner)

  unfoldable pub refresh_dir : Bytes → CacheKey → ℕ → MetaCacheFs sys → MetaCacheFs sys
  unfolding refreshed_dir
  refresh_dir path key now s =
      let ctx = with_origin (with_read_only Context.new) path (codes "readdir") in
      refreshed_dir key now s (sys.read_dir ctx path s.inner)
