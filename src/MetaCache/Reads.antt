-- ===== src/MetaCache/Reads.antt =====
-- Reads through the cache of crates/star9-fs/src/metacache.rs, and refreshes, over a file system that reads do not change.
use star.Base.{
  ℕ, ◌≡◌, refl, ap, sym, subst, ◌∙◌, Bool, true, false, List, [], ◌∷◌, ◌++◌, Bytes, All, Option,
  none, some,
}
use star.Core.Error.{Result}
use star.Core.Mode.{Metadata, DirEntry}
use star.Core.Context.{FsContext}
use star.Fs.Backend.{Backend}
use star.MetaCache.Keys.{CacheKey, CacheKind}
use star.MetaCache.{
  CachePayload, CachedLookup, normalize, key_of, get_cached, set_cached, extend_expiry,
}
use star.MetaCache.Ops.{
  Refresh, MetaCacheFs, schedule, metadata_kind, inner_stat, store_metadata, store_dir,
  serve_metadata, stat_context, serve_dir, read_dir_context,
}
use star.MetaCache.Steady.{IsSteady, answer}
use star.MetaCache.Coherent.{
  Agrees, IsClean, key_of-IsClean, get_cached-Agrees, set_cached-Agrees, extend_expiry-Agrees,
}

-- A thread refreshes the key of its path, which is clean.
abbrev pub OwnKey : Refresh → Type 0
OwnKey (Refresh.metadata path key no_links) =
    (key ≡ key_of path (metadata_kind no_links)) × (normalize path ≡ path)
OwnKey (Refresh.dir path key) = (key ≡ key_of path CacheKind.read_dir) × (normalize path ≡ path)

-- Every entry holds what the inner file system would answer now.
pub record IsCoherent {sys : Backend} (s : MetaCacheFs sys) : Type 0 where
  pub agrees : Agrees (λ key. answer sys key s.inner) s.cache
  pub threads : All OwnKey s.pending

-- The result of a read through the cache is that of the read without, which changes nothing.
pub record Reads {sys : Backend} {A : Type 0} (s : MetaCacheFs sys) (r : Result A)
    (out : Result A × MetaCacheFs sys) : Type 0 where
  pub same : out.0 ≡ r
  pub inner : out.1.inner ≡ s.inner
  pub coherent : IsCoherent out.1

All-snoc : (ts : List Refresh) (t : Refresh) → All OwnKey ts → OwnKey t → All OwnKey (ts ++ t ∷ [])
All-snoc [] t h k = (k, tt)
All-snoc (u ∷ ts) t h k = (h.0, All-snoc ts t h.1 k)

module _ {sys : Backend} where
  schedule-IsCoherent :
      (refresh : Bool) (t : Refresh) (s : MetaCacheFs sys)
      → OwnKey t
      → IsCoherent s
      → IsCoherent (schedule refresh t s) × ((schedule refresh t s).inner ≡ s.inner)
  unfolding schedule
  schedule-IsCoherent true t s k c =
      (record { agrees = c.agrees; threads = All-snoc s.pending t c.threads k }, refl)
  schedule-IsCoherent false t s k c = (c, refl)

  -- What is stored for a key is what the key stands for.
  pub stored :
      (key : CacheKey) (payload : CachePayload) (now : ℕ) (s : MetaCacheFs sys) (fs : sys.Fs)
      → fs ≡ s.inner
      → payload ≡ answer sys key s.inner
      → IsCoherent s
      → IsCoherent {sys = sys}
          (record s { inner = fs; cache = set_cached s.ttl key payload now s.cache })
  stored key payload now s fs h e c = record {
    agrees =
        subst (λ x. Agrees (λ k. answer sys k x) (set_cached s.ttl key payload now s.cache)) (sym h)
          (set_cached-Agrees _ s.ttl key payload now s.cache e c.agrees);
    threads = c.threads;
  }

  -- A longer life for what a key has.
  pub renewed :
      (key : CacheKey) (now : ℕ) (s : MetaCacheFs sys) (fs : sys.Fs)
      → fs ≡ s.inner
      → IsClean key
      → IsCoherent s
      → IsCoherent {sys = sys}
          (record s { inner = fs; cache = extend_expiry s.ttl key now s.cache })
  renewed key now s fs h n c = record {
    agrees =
        subst (λ x. Agrees (λ k. answer sys k x) (extend_expiry s.ttl key now s.cache)) (sym h)
          (extend_expiry-Agrees _ s.ttl key now s.cache n c.agrees);
    threads = c.threads;
  }

  store_metadata-Reads :
      (key : CacheKey) (now : ℕ) (s : MetaCacheFs sys) (p : Result Metadata × sys.Fs)
      → CachePayload.metadata p.0 ≡ answer sys key s.inner
      → p.1 ≡ s.inner
      → IsCoherent s
      → Reads s p.0 (store_metadata key now s p)
  unfolding store_metadata
  store_metadata-Reads key now s (r, fs) e h c = record {
    same = refl;
    inner = h;
    coherent = stored key (CachePayload.metadata r) now s fs h e c;
  }

  store_dir-Reads :
      (key : CacheKey) (now : ℕ) (s : MetaCacheFs sys) (p : Result (List DirEntry) × sys.Fs)
      → CachePayload.read_dir p.0 ≡ answer sys key s.inner
      → p.1 ≡ s.inner
      → IsCoherent s
      → Reads s p.0 (store_dir key now s p)
  unfolding store_dir
  store_dir-Reads key now s (r, fs) e h c = record {
    same = refl;
    inner = h;
    coherent = stored key (CachePayload.read_dir r) now s fs h e c;
  }

module _ {sys : Backend} (is_steady : IsSteady sys) where
  pub inner_stat-answer :
      (no_links : Bool) (ctx : FsContext) (name : Bytes) (fs : sys.Fs)
      → normalize name ≡ name
      → (no_links ≡ false → ctx.follow_symlinks ≡ true)
      → (CachePayload.metadata (inner_stat sys no_links ctx name fs).0
          ≡ answer sys (key_of name (metadata_kind no_links)) fs)
        × ((inner_stat sys no_links ctx name fs).1 ≡ fs)
  unfolding inner_stat metadata_kind key_of
  inner_stat-answer true ctx name fs n h = (
    ap CachePayload.metadata (is_steady.lstat_context ctx name fs)
        ∙ ap (λ path. answer sys (record { path = path; kind = CacheKind.lstat }) fs) (sym n),
    is_steady.lstat_pure ctx name fs,
  )
  inner_stat-answer false ctx name fs n h = (
    ap CachePayload.metadata (is_steady.stat_context ctx name fs (h refl))
        ∙ ap (λ path. answer sys (record { path = path; kind = CacheKind.stat }) fs) (sym n),
    is_steady.stat_pure ctx name fs,
  )

  -- What a listing of a clean name is cached as.
  pub dir-answer :
      (ctx : FsContext) (name : Bytes) (fs : sys.Fs)
      → normalize name ≡ name
      → CachePayload.read_dir (sys.read_dir ctx name fs).0
        ≡ answer sys (key_of name CacheKind.read_dir) fs
  unfolding key_of
  dir-answer ctx name fs n =
      ap CachePayload.read_dir (is_steady.dir_context ctx name fs)
      ∙ ap (λ path. answer sys (record { path = path; kind = CacheKind.read_dir }) fs) (sym n)

  serve_metadata-Reads :
      (ctx : FsContext) (name : Bytes) (no_links : Bool) (now : ℕ) (found : Option CachedLookup)
      (s : MetaCacheFs sys)
      → normalize name ≡ name
      → (no_links ≡ false → ctx.follow_symlinks ≡ true)
      → ((p : CachePayload) (refresh : Bool)
          → found ≡ some (p, refresh)
          → p ≡ answer sys (key_of name (metadata_kind no_links)) s.inner)
      → IsCoherent s
      → Reads s
          (inner_stat sys no_links ctx name s.inner).0
          (serve_metadata ctx name no_links (key_of name (metadata_kind no_links)) now found s)
  unfolding serve_metadata
  serve_metadata-Reads ctx name no_links now none s n f h c =
      let (a, b) = inner_stat-answer no_links ctx name s.inner n f in
      store_metadata-Reads _ now s (inner_stat sys no_links ctx name s.inner) a b c
  serve_metadata-Reads ctx name no_links now (some (CachePayload.metadata r, refresh)) s n f h c =
      let (a, b) = inner_stat-answer no_links ctx name s.inner n f in
      let (d, e) =
        schedule-IsCoherent refresh
          (Refresh.metadata name (key_of name (metadata_kind no_links)) no_links) s (refl, n) c in
      let q = h (CachePayload.metadata r) refresh refl ∙ sym a in
      record { same = cc (q); inner = e; coherent = d }
  serve_metadata-Reads ctx name no_links now (some (CachePayload.read_dir r, refresh)) s n f h c =
      let (a, b) = inner_stat-answer no_links ctx name s.inner n f in
      let q = h (CachePayload.read_dir r) refresh refl ∙ sym a in absurd (cc (q))

  with_cache :
      (key : CacheKey) (now : ℕ) (s : MetaCacheFs sys)
      → IsClean key
      → IsCoherent s
      → IsCoherent (record s { cache = (get_cached key now s.cache).1 })
        × ((p : CachePayload) (refresh : Bool)
            → (get_cached key now s.cache).0 ≡ some (p, refresh)
            → p ≡ answer sys key s.inner)
  with_cache key now s n c =
      let (a, b) = get_cached-Agrees (λ k. answer sys k s.inner) key now s.cache n c.agrees in
      (record { agrees = a; threads = c.threads }, b)

  pub stat_context-Reads :
      (ctx : FsContext) (name : Bytes) (no_links : Bool) (t0 t1 : ℕ) (s : MetaCacheFs sys)
      → normalize name ≡ name
      → (no_links ≡ false → ctx.follow_symlinks ≡ true)
      → IsCoherent s
      → Reads s
          (inner_stat sys no_links ctx name s.inner).0
          (stat_context ctx name no_links t0 t1 s)
  unfolding stat_context
  stat_context-Reads ctx name no_links t0 t1 s n f c =
      let key = key_of name (metadata_kind no_links) in
      let (d, found) = with_cache key t0 s (key_of-IsClean name _) c in
      let r =
        serve_metadata-Reads ctx name no_links t1 (get_cached key t0 s.cache).0
          (record s { cache = (get_cached key t0 s.cache).1 }) n f found d in
      record { same = r.same; inner = r.inner; coherent = r.coherent }

  serve_dir-Reads :
      (ctx : FsContext) (name : Bytes) (now : ℕ) (found : Option CachedLookup) (s : MetaCacheFs sys)
      → normalize name ≡ name
      → ((p : CachePayload) (refresh : Bool)
          → found ≡ some (p, refresh)
          → p ≡ answer sys (key_of name CacheKind.read_dir) s.inner)
      → IsCoherent s
      → Reads s
          (sys.read_dir ctx name s.inner).0
          (serve_dir ctx name (key_of name CacheKind.read_dir) now found s)
  unfolding serve_dir
  serve_dir-Reads ctx name now none s n h c =
      store_dir-Reads _ now s (sys.read_dir ctx name s.inner) (dir-answer ctx name s.inner n)
        (is_steady.dir_pure ctx name s.inner) c
  serve_dir-Reads ctx name now (some (CachePayload.read_dir r, refresh)) s n h c =
      let (d, e) =
        schedule-IsCoherent refresh (Refresh.dir name (key_of name CacheKind.read_dir)) s (refl, n)
          c in
      let q = h (CachePayload.read_dir r) refresh refl ∙ sym (dir-answer ctx name s.inner n) in
      record { same = cc (q); inner = e; coherent = d }
  serve_dir-Reads ctx name now (some (CachePayload.metadata r, refresh)) s n h c =
      let q = h (CachePayload.metadata r) refresh refl ∙ sym (dir-answer ctx name s.inner n) in
      absurd (cc (q))

  pub read_dir_context-Reads :
      (ctx : FsContext) (name : Bytes) (t0 t1 : ℕ) (s : MetaCacheFs sys)
      → normalize name ≡ name
      → IsCoherent s
      → Reads s (sys.read_dir ctx name s.inner).0 (read_dir_context ctx name t0 t1 s)
  unfolding read_dir_context
  read_dir_context-Reads ctx name t0 t1 s n c =
      let key = key_of name CacheKind.read_dir in
      let (d, found) = with_cache key t0 s (key_of-IsClean name _) c in
      let r =
        serve_dir-Reads ctx name t1 (get_cached key t0 s.cache).0
          (record s { cache = (get_cached key t0 s.cache).1 }) n found d in
      record { same = r.same; inner = r.inner; coherent = r.coherent }
