-- ===== src/MetaCache/Refines.antt =====
-- The cache of crates/star9-fs/src/metacache.rs is not seen by those who only read.
use star.Base.{◌≡◌, List}
use star.Fs.Backend.{Backend}
use star.MetaCache.Ops.{MetaCacheFs}
use star.MetaCache.Steady.{IsSteady}
use star.MetaCache.Run.{Event, run, run_direct}

module _ {sys : Backend} (is_steady : IsSteady sys) where
  -- The results of the run, and the inner state after it, are those of the run without a cache.
  abbrev Refines : List Event → MetaCacheFs sys → Type 0
  Refines events s =
      ((run events s).0 ≡ (run_direct sys events s.inner).0)
      × ((run events s).1.inner ≡ (run_direct sys events s.inner).1)
