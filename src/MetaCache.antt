-- ===== src/MetaCache.antt =====
-- `MetaCacheFs` of crates/star9-fs/src/metacache.rs: the entries of the cache, and how they are found,
-- stored, renewed and dropped. A duration and an instant are numbers of nanoseconds; what the source
-- reads from the clock is an argument here, `now`.
pub mod Keys
pub mod Ops
pub mod Changes
pub mod Handle
pub mod Expiry
pub mod Steady
pub mod Coherent
pub mod Drops
pub mod Run
pub mod Reads
pub mod Refreshes
pub mod Calls
pub mod Refines
use star.Base.{
  ℕ, ◌+◌, ◌/◌, ◌==◌, leb, Bool, true, false, not, ◌&&◌, ◌||◌, List, [], ◌∷◌, Bytes, Option, none,
  some, if◌then◌else◌,
}
use star.Core.Error.{Result, ok, err}
use star.Core.Mode.{Metadata, DirEntry}
use star.Core.Path.{clean_path, parent_path, trim_slashes}
use star.MetaCache.Keys.{CacheKey, CacheKind, Store, get, insert, remove, retain, same_or_below}

pub data CachePayload : Type 0 where
  metadata : Result Metadata → CachePayload
  read_dir : Result (List DirEntry) → CachePayload

pub record CacheEntry : Type 0 where
  pub payload : CachePayload
  pub renew_at : Option ℕ
  pub expires_at : ℕ
  pub refreshing : Bool

abbrev pub Cache : Type 0
Cache = Store CacheEntry

-- `normalize_cache_path`
unfoldable pub normalize : Bytes → Bytes
normalize path = clean_path (trim_slashes path)

unfoldable pub key_of : Bytes → CacheKind → CacheKey
unfolding normalize
key_of path kind = record { path = normalize path; kind = kind }

unfoldable pub invalidate : Bytes → Cache → Cache
invalidate path cache =
    remove (key_of path CacheKind.read_dir)
      (remove (key_of path CacheKind.lstat) (remove (key_of path CacheKind.stat) cache))

unfoldable pub invalidate_dir : Bytes → Cache → Cache
unfolding normalize
invalidate_dir path cache = retain (λ key. not (same_or_below (normalize path) key.path)) cache

unfoldable pub invalidate_all : Cache → Cache
invalidate_all cache = []

-- The key of the parent's listing.
unfoldable pub parent_key : Bytes → CacheKey
unfolding normalize
parent_key path = record { path = parent_path (normalize path); kind = CacheKind.read_dir }

unfoldable pub invalidate_parent_listing : Bytes → Cache → Cache
unfolding parent_key
invalidate_parent_listing path cache = remove (parent_key path) cache

-- `renew_at.is_some_and(|renew_at| now >= renew_at)`
unfoldable pub is_due : Option ℕ → ℕ → Bool
is_due none now = false
is_due (some renew_at) now = leb renew_at now

-- `CachedLookup`: a payload, and whether it is to be refreshed.
abbrev pub CachedLookup : Type 0
CachedLookup = CachePayload × Bool

-- The entry that was found, if it has not expired.
unfoldable pub use_entry : CacheKey → ℕ → CacheEntry → Cache → Option CachedLookup × Cache
unfolding is_due
use_entry key now entry cache =
    let refresh = is_due entry.renew_at now && not entry.refreshing in
    let marked = insert key (record entry { refreshing = true }) cache in
    if leb entry.expires_at now
    then (none, remove key cache)
    else (some (entry.payload, refresh), if refresh then marked else cache)

unfoldable pub use_found : CacheKey → ℕ → Option CacheEntry → Cache → Option CachedLookup × Cache
unfolding use_entry
use_found key now none cache = (none, cache)
use_found key now (some entry) cache = use_entry key now entry cache

unfoldable pub get_cached : CacheKey → ℕ → Cache → Option CachedLookup × Cache
unfolding use_found
get_cached key now cache = use_found key now (get key cache) cache

-- `result.is_err()`
unfoldable pub is_error : CachePayload → Bool
is_error (CachePayload.metadata (ok meta)) = false
is_error (CachePayload.metadata (err e)) = true
is_error (CachePayload.read_dir (ok entries)) = false
is_error (CachePayload.read_dir (err e)) = true

-- The entry that `set_cached` stores.
unfoldable pub entry_of : ℕ → ℕ → CachePayload → CacheEntry
unfolding is_error
entry_of ttl now payload = record {
  payload = payload;
  renew_at = if is_error payload then none else some (now + ttl / 2);
  expires_at = now + (if is_error payload then ttl / 2 else ttl);
  refreshing = false;
}

unfoldable pub set_cached : ℕ → CacheKey → CachePayload → ℕ → Cache → Cache
unfolding entry_of
set_cached ttl key payload now cache =
    if ttl == 0 then cache else insert key (entry_of ttl now payload) cache

-- The entry that `extend_expiry` leaves.
unfoldable pub extended : ℕ → ℕ → CacheEntry → CacheEntry
extended ttl now entry = record entry {
  renew_at = some (now + ttl / 2);
  expires_at = now + ttl;
  refreshing = false;
}

unfoldable pub renew_found : ℕ → CacheKey → ℕ → Option CacheEntry → Cache → Cache
unfolding extended
renew_found ttl key now none cache = cache
renew_found ttl key now (some entry) cache = insert key (extended ttl now entry) cache

unfoldable pub extend_expiry : ℕ → CacheKey → ℕ → Cache → Cache
unfolding renew_found
extend_expiry ttl key now cache =
    if ttl == 0 then remove key cache else renew_found ttl key now (get key cache) cache
