-- ===== src/MetaCache/Handle.antt =====
-- `MetaCacheFile` of crates/star9-fs/src/metacache.rs: a file that was opened through the cache.
use star.Base.{
  ℕ, ◌+◌, min, ltb, leb, ◌==◌, false, not, ◌||◌, ◌&&◌, List, [], Bytes, codes, length, take, drop,
  none, some, if◌then◌else◌,
}
use star.Core.Error.{Result, ok, err}
use star.Core.Mode.{Metadata, DirEntry}
use star.Core.Context
use star.Core.Context.{with_read_only, with_origin}
use star.Fs.Backend.{Backend}
use star.MetaCache.Ops.{MetaCacheFs, MetaCacheFile, stat_context, read_dir_context}
use star.MetaCache.Changes.{drop_entry}

-- A call on an open file returns its result, the file and the file system.
abbrev pub FileExec : Backend → Type 0 → Type 0
FileExec sys A =
    MetaCacheFile sys.File → MetaCacheFs sys → Result A × MetaCacheFile sys.File × MetaCacheFs sys

-- The entries of the next call, of which `0` stands for a count that is not positive.
unfoldable pub next_entries :
    {F : Type 0} → ℕ → List DirEntry → MetaCacheFile F → List DirEntry × MetaCacheFile F
next_entries count entries file =
    let end =
      if count == 0 then length entries else min (file.dir_offset + count) (length entries) in
    if not (count == 0) && leb (length entries) file.dir_offset
    then ([], file)
    else (drop file.dir_offset (take end entries), record file { dir_offset = end })

module _ {sys : Backend} where
  -- A write of more than no bytes marks the file.
  unfoldable pub written :
      MetaCacheFile sys.File
      → MetaCacheFs sys
      → Result ℕ × sys.File × sys.Fs
      → Result ℕ × MetaCacheFile sys.File × MetaCacheFs sys
  written file s (ok n, f, fs) =
      (ok n, record file { inner = f; dirty = file.dirty || ltb 0 n }, record s { inner = fs })
  written file s (err e, f, fs) = (err e, record file { inner = f }, record s { inner = fs })

  unfoldable pub write : Bytes → FileExec sys ℕ
  unfolding written
  write content file s = written file s (sys.file_write content file.inner s.inner)

  unfoldable pub write_at : Bytes → ℕ → FileExec sys ℕ
  unfolding written
  write_at content offset file s =
      written file s (sys.file_write_at content offset file.inner s.inner)

  unfoldable pub stat : ℕ → ℕ → FileExec sys Metadata
  stat t0 t1 file s =
      let (r, s') =
        stat_context (with_origin Context.new file.path (codes "stat")) file.path false t0 t1 s in
      (r, file, s')

  unfoldable pub listed :
      ℕ
      → MetaCacheFile sys.File
      → Result (List DirEntry) × MetaCacheFs sys
      → Result (List DirEntry) × MetaCacheFile sys.File × MetaCacheFs sys
  unfolding next_entries
  listed count file (err e, s) = (err e, file, s)
  listed count file (ok entries, s) =
      let fresh = record file { dir_entries = some entries; dir_offset = 0 } in
      let (out, file') = next_entries count entries fresh in (ok out, file', s)

  unfoldable pub read_dir : ℕ → ℕ → ℕ → FileExec sys (List DirEntry)
  unfolding listed
  read_dir count t0 t1 file s = elim file.dir_entries [
    | none ↦ listed count file (
        read_dir_context (with_origin (with_read_only Context.new) file.path (codes "readdir"))
          file.path t0 t1 s)
    | some entries ↦ let (out, file') = next_entries count entries file in (ok out, file', s)
  ]

  -- The result of the inner `close`, whatever it is, after what a written file drops.
  unfoldable pub close : FileExec sys (Unit {0})
  close file s =
      let (r, f, fs) = sys.file_close file.inner s.inner in
      let cache = if file.dirty then drop_entry file.path s.cache else s.cache in
      (r, record file { inner = f }, record s { inner = fs; cache = cache })
