-- ===== src/MetaCache/Refreshes.antt =====
-- Refreshes of the cache of crates/star9-fs/src/metacache.rs, over a file system that reads do not change.
use star.Base.{ℕ, ◌≡◌, refl, Bool, true, false, List, Bytes, codes}
use star.Core.Error.{Result, ok, err}
use star.Core.Mode.{Metadata, DirEntry}
use star.Core.Context
use star.Core.Context.{FsContext, with_origin, no_follow, with_read_only}
use star.Fs.Backend.{Backend}
use star.MetaCache.Keys.{CacheKey, CacheKind}
use star.MetaCache.{CachePayload, normalize, key_of}
use star.MetaCache.Ops.{
  MetaCacheFs, metadata_kind, inner_stat, refreshed_metadata, refreshed_dir, refresh_context,
  refresh_metadata, refresh_dir,
}
use star.MetaCache.Steady.{IsSteady, answer}
use star.MetaCache.Coherent.{IsClean, key_of-IsClean}
use star.MetaCache.Reads.{IsCoherent, inner_stat-answer, dir-answer, stored, renewed}

module _ {sys : Backend} (is_steady : IsSteady sys) where
  -- A refresh: the inner file system and the coherence stay.
  abbrev pub Quiet : MetaCacheFs sys → MetaCacheFs sys → Type 0
  Quiet s s' = (s'.inner ≡ s.inner) × IsCoherent s'

  refreshed_metadata-Quiet :
      (key : CacheKey) (now : ℕ) (s : MetaCacheFs sys) (p : Result Metadata × sys.Fs)
      → IsClean key
      → CachePayload.metadata p.0 ≡ answer sys key s.inner
      → p.1 ≡ s.inner
      → IsCoherent s
      → Quiet s (refreshed_metadata key now s p)
  unfolding refreshed_metadata
  refreshed_metadata-Quiet key now s (ok meta, fs) n e h c =
      (h, stored key (CachePayload.metadata (ok meta)) now s fs h e c)
  refreshed_metadata-Quiet key now s (err x, fs) n e h c = (h, renewed key now s fs h n c)

  refreshed_dir-Quiet :
      (key : CacheKey) (now : ℕ) (s : MetaCacheFs sys) (p : Result (List DirEntry) × sys.Fs)
      → IsClean key
      → CachePayload.read_dir p.0 ≡ answer sys key s.inner
      → p.1 ≡ s.inner
      → IsCoherent s
      → Quiet s (refreshed_dir key now s p)
  unfolding refreshed_dir
  refreshed_dir-Quiet key now s (ok entries, fs) n e h c =
      (h, stored key (CachePayload.read_dir (ok entries)) now s fs h e c)
  refreshed_dir-Quiet key now s (err x, fs) n e h c = (h, renewed key now s fs h n c)

  refresh_follows :
      (no_links : Bool) (path : Bytes)
      → no_links ≡ false
      → (refresh_context no_links path).follow_symlinks ≡ true
  unfolding refresh_context with_origin
  refresh_follows true path h = cc (h)
  refresh_follows false path h = refl

  pub refresh_metadata-Quiet :
      (path : Bytes) (no_links : Bool) (now : ℕ) (s : MetaCacheFs sys)
      → normalize path ≡ path
      → IsCoherent s
      → Quiet s (refresh_metadata path (key_of path (metadata_kind no_links)) no_links now s)
  unfolding refresh_metadata
  refresh_metadata-Quiet path no_links now s n c =
      let (a, b) =
        inner_stat-answer is_steady no_links (refresh_context no_links path) path s.inner n
          (refresh_follows no_links path) in
      refreshed_metadata-Quiet _ now s
        (inner_stat sys no_links (refresh_context no_links path) path s.inner)
        (key_of-IsClean path _) a b c

  pub refresh_dir-Quiet :
      (path : Bytes) (now : ℕ) (s : MetaCacheFs sys)
      → normalize path ≡ path
      → IsCoherent s
      → Quiet s (refresh_dir path (key_of path CacheKind.read_dir) now s)
  unfolding refresh_dir
  refresh_dir-Quiet path now s n c =
      let ctx = with_origin (with_read_only Context.new) path (codes "readdir") in
      refreshed_dir-Quiet _ now s (sys.read_dir ctx path s.inner) (key_of-IsClean path _)
        (dir-answer is_steady ctx path s.inner n) (is_steady.dir_pure ctx path s.inner) c
