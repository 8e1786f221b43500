-- ===== src/MetaCache/Calls.antt =====
-- Each read through the cache of crates/star9-fs/src/metacache.rs does what it does without.
use star.Base.{ℕ, ◌≡◌, ap, sym, ◌∙◌, true, false}
use star.Core.Error.{Result}
use star.Fs.Backend.{Backend}
use star.MetaCache.Ops.{MetaCacheFs, inner_stat}
use star.MetaCache.Steady.{IsSteady}
use star.MetaCache.Reads.{IsCoherent, Reads, stat_context-Reads, read_dir_context-Reads}
use star.MetaCache.Run.{Call, Outcome, tagged, perform, direct, IsRead}

-- The result and the inner state are those of the call without a cache.
pub record Does {sys : Backend} {A : Type 0} (p : A × sys.Fs) (out : A × MetaCacheFs sys)
    : Type 0 where
  pub same : out.0 ≡ p.0
  pub inner : out.1.inner ≡ p.1
  pub coherent : IsCoherent out.1

module _ {sys : Backend} {A : Type 0} where
  tagged-Does :
      {F : Type 0} (tag : A → Outcome F) (p : A × sys.Fs) (out : A × MetaCacheFs sys)
      → Does p out
      → Does (tagged tag p) (tagged tag out)
  tagged-Does tag p out d = record { same = ap tag d.same; inner = d.inner; coherent = d.coherent }

  read-Does :
      (s : MetaCacheFs sys) (p : Result A × sys.Fs) (out : Result A × MetaCacheFs sys)
      → p.1 ≡ s.inner
      → Reads s p.0 out
      → Does p out
  read-Does s p out h r = record { same = r.same; inner = r.inner ∙ sym h; coherent = r.coherent }

module _ {sys : Backend} (is_steady : IsSteady sys) where
  pub perform-Does :
      (call : Call) (t0 t1 : ℕ) (s : MetaCacheFs sys)
      → IsRead call
      → IsCoherent s
      → Does (direct sys call s.inner) (perform call t0 t1 s)
  unfolding perform direct inner_stat
  perform-Does (Call.stat ctx name) t0 t1 s f c = tagged-Does Outcome.meta _ _ (
      read-Does s (sys.stat ctx name s.inner) _ (is_steady.stat_pure ctx name s.inner)
        (stat_context-Reads is_steady ctx name false t0 t1 s f.0 (λ _. f.1) c))
  perform-Does (Call.lstat ctx name) t0 t1 s f c = tagged-Does Outcome.meta _ _ (
      read-Does s (sys.lstat ctx name s.inner) _ (is_steady.lstat_pure ctx name s.inner)
        (stat_context-Reads is_steady ctx name true t0 t1 s f (λ h. cc (h)) c))
  perform-Does (Call.read_dir ctx name) t0 t1 s f c = tagged-Does Outcome.entries _ _ (
      read-Does s (sys.read_dir ctx name s.inner) _ (is_steady.dir_pure ctx name s.inner)
        (read_dir_context-Reads is_steady ctx name t0 t1 s f c))
  perform-Does (Call.create name) t0 t1 s f c = elim f [ ]
  perform-Does (Call.remove name) t0 t1 s f c = elim f [ ]
  perform-Does (Call.open_file name flags perm) t0 t1 s f c = elim f [ ]
  perform-Does (Call.mkdir name perm) t0 t1 s f c = elim f [ ]
  perform-Does (Call.chmod name mode) t0 t1 s f c = elim f [ ]
  perform-Does (Call.rename old new) t0 t1 s f c = elim f [ ]
  perform-Does (Call.link old new) t0 t1 s f c = elim f [ ]
  perform-Does (Call.symlink old new) t0 t1 s f c = elim f [ ]
  perform-Does (Call.chown name uid gid) t0 t1 s f c = elim f [ ]
  perform-Does (Call.chtimes name mtime) t0 t1 s f c = elim f [ ]
  perform-Does (Call.truncate name size) t0 t1 s f c = elim f [ ]
