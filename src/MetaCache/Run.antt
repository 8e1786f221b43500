-- ===== src/MetaCache/Run.antt =====
-- Runs of the cache of crates/star9-fs/src/metacache.rs: calls of clients, with the instants at which
-- the clock is read, changes of the time to live, and refresh threads that come to run. The same calls
-- without a cache are the specification.
use star.Base.{ℕ, zero, suc, ◌≡◌, true, false, List, [], ◌∷◌, Bytes, Option, none, some}
use star.Core.Error.{Result, ok, err}
use star.Core.Mode.{FileMode, Metadata, DirEntry, Time}
use star.Core.Context.{FsContext}
use star.Fs.Backend.{Backend}
use star.MetaCache.{normalize}
use star.MetaCache.Ops.{
  Refresh, MetaCacheFs, MetaCacheFile, stat_context, read_dir_context, refresh_metadata,
  refresh_dir, set_ttl,
}
use star.MetaCache.Changes

pub data Call : Type 0 where
  stat lstat read_dir : FsContext → Bytes → Call
  create remove : Bytes → Call
  open_file : Bytes → ℕ → FileMode → Call
  mkdir chmod : Bytes → FileMode → Call
  rename link symlink : Bytes → Bytes → Call
  chown : Bytes → ℕ → ℕ → Call
  chtimes : Bytes → Time → Call
  truncate : Bytes → ℕ → Call

-- What a client sees of a call; of an open file, the file that is wrapped.
pub data Outcome (F : Type 0) : Type 0 where
  meta : Result Metadata → Outcome F
  entries : Result (List DirEntry) → Outcome F
  opened : Result F → Outcome F
  done : Result (Unit {0}) → Outcome F

pub data Event : Type 0 where
  call : Call → ℕ → ℕ → Event
  ttl : ℕ → Event
  -- The refresh thread at this place of the queue runs at this instant.
  refresh : ℕ → ℕ → Event

abbrev pub unwrapped : {F : Type 0} → Result (MetaCacheFile F) → Result F
unwrapped (ok f) = ok f.inner
unwrapped (err e) = err e

abbrev pub tagged : {A S F : Type 0} → (A → Outcome F) → A × S → Outcome F × S
tagged tag (a, s) = (tag a, s)

abbrev pub tagged_file : {S F : Type 0} → Result (MetaCacheFile F) × S → Outcome F × S
tagged_file (r, s) = (Outcome.opened (unwrapped r), s)

-- The thread at an index, and the others.
abbrev pub pick {ℓ} : {A : Type ℓ} → ℕ → List A → Option A × List A
pick n [] = (none, [])
pick zero (x ∷ xs) = (some x, xs)
pick (suc n) (x ∷ xs) = let (o, rest) = pick n xs in (o, x ∷ rest)

module _ {sys : Backend} where
  unfoldable pub perform : Call → ℕ → ℕ → MetaCacheFs sys → Outcome sys.File × MetaCacheFs sys
  perform (Call.stat ctx name) t0 t1 s = tagged Outcome.meta (stat_context ctx name false t0 t1 s)
  perform (Call.lstat ctx name) t0 t1 s = tagged Outcome.meta (stat_context ctx name true t0 t1 s)
  perform (Call.read_dir ctx name) t0 t1 s =
      tagged Outcome.entries (read_dir_context ctx name t0 t1 s)
  perform (Call.create name) t0 t1 s = tagged_file (Changes.create name s)
  perform (Call.open_file name flags perm) t0 t1 s =
      tagged_file (Changes.open_file name flags perm s)
  perform (Call.mkdir name perm) t0 t1 s = tagged Outcome.done (Changes.mkdir name perm s)
  perform (Call.remove name) t0 t1 s = tagged Outcome.done (Changes.remove name s)
  perform (Call.rename old new) t0 t1 s = tagged Outcome.done (Changes.rename old new s)
  perform (Call.link old new) t0 t1 s = tagged Outcome.done (Changes.link old new s)
  perform (Call.chmod name mode) t0 t1 s = tagged Outcome.done (Changes.chmod name mode s)
  perform (Call.chown name uid gid) t0 t1 s = tagged Outcome.done (Changes.chown name uid gid s)
  perform (Call.chtimes name mtime) t0 t1 s = tagged Outcome.done (Changes.chtimes name mtime s)
  perform (Call.truncate name size) t0 t1 s = tagged Outcome.done (Changes.truncate name size s)
  perform (Call.symlink old new) t0 t1 s = tagged Outcome.done (Changes.symlink old new s)

  unfoldable pub run_thread : Option Refresh → ℕ → MetaCacheFs sys → MetaCacheFs sys
  run_thread none now s = s
  run_thread (some (Refresh.metadata path key no_links)) now s =
      refresh_metadata path key no_links now s
  run_thread (some (Refresh.dir path key)) now s = refresh_dir path key now s

  unfoldable pub run : List Event → MetaCacheFs sys → List (Outcome sys.File) × MetaCacheFs sys
  unfolding perform run_thread
  run [] s = ([], s)
  run (Event.call c t0 t1 ∷ events) s =
      let (out, s') = perform c t0 t1 s in let (outs, s'') = run events s' in (out ∷ outs, s'')
  run (Event.ttl n ∷ events) s = run events (set_ttl n s)
  run (Event.refresh i now ∷ events) s =
      let (thread, rest) = pick i s.pending in
      run events (run_thread thread now (record s { pending = rest }))

module _ (sys : Backend) where
  unfoldable pub direct : Call → sys.Fs → Outcome sys.File × sys.Fs
  direct (Call.stat ctx name) fs = tagged Outcome.meta (sys.stat ctx name fs)
  direct (Call.lstat ctx name) fs = tagged Outcome.meta (sys.lstat ctx name fs)
  direct (Call.read_dir ctx name) fs = tagged Outcome.entries (sys.read_dir ctx name fs)
  direct (Call.create name) fs = tagged Outcome.opened (sys.create name fs)
  direct (Call.open_file name flags perm) fs =
      tagged Outcome.opened (sys.open_file name flags perm fs)
  direct (Call.mkdir name perm) fs = tagged Outcome.done (sys.mkdir name perm fs)
  direct (Call.remove name) fs = tagged Outcome.done (sys.remove name fs)
  direct (Call.rename old new) fs = tagged Outcome.done (sys.rename old new fs)
  direct (Call.link old new) fs = tagged Outcome.done (sys.link old new fs)
  direct (Call.chmod name mode) fs = tagged Outcome.done (sys.chmod name mode fs)
  direct (Call.chown name uid gid) fs = tagged Outcome.done (sys.chown name uid gid fs)
  direct (Call.chtimes name mtime) fs = tagged Outcome.done (sys.chtimes name mtime fs)
  direct (Call.truncate name size) fs = tagged Outcome.done (sys.truncate name size fs)
  direct (Call.symlink old new) fs = tagged Outcome.done (sys.symlink old new fs)

  -- The calls alone, without a cache.
  unfoldable pub run_direct : List Event → sys.Fs → List (Outcome sys.File) × sys.Fs
  unfolding direct
  run_direct [] fs = ([], fs)
  run_direct (Event.call c t0 t1 ∷ events) fs =
      let (out, fs') = direct c fs in let (outs, fs'') = run_direct events fs' in (out ∷ outs, fs'')
  run_direct (Event.ttl n ∷ events) fs = run_direct events fs
  run_direct (Event.refresh i now ∷ events) fs = run_direct events fs

-- A read of a clean name; a `stat` that follows links.
abbrev pub IsRead : Call → Type 0
IsRead (Call.stat ctx name) = (normalize name ≡ name) × (ctx.follow_symlinks ≡ true)
IsRead (Call.lstat ctx name) = normalize name ≡ name
IsRead (Call.read_dir ctx name) = normalize name ≡ name
IsRead _ = ⊥

abbrev pub IsReads : List Event → Type 0
IsReads [] = Unit
IsReads (Event.call c t0 t1 ∷ events) = IsRead c × IsReads events
IsReads (_ ∷ events) = IsReads events
