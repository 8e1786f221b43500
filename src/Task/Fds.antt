-- ===== src/Task/Fds.antt =====
-- The file descriptors of a task, of crates/star9-task/src/lib.rs. An open file is a trait object there,
-- so its type and its `close`, on the state `W` of all file systems, are parameters.
use star.Base.{
  ℕ, ◌+◌, ◌%◌, ◌^◌, leb, ◌==◌, [], ◌∷◌, Bytes, Option, none, some, if◌then◌else◌, decimal,
}
use star.Base.Table
use star.Base.Table.{Table}
use star.Core.Error.{Error, ErrorKind, Result, ok, err}

pub record OpenFile (F : Type 0) : Type 0 where
  pub file : F
  pub path : Bytes

pub record FdTable (F : Type 0) : Type 0 where
  pub files : Table (OpenFile F)
  pub next : ℕ

-- The addition of a release build, on a `u32`.
abbrev pub inc32 : ℕ → ℕ
inc32 n = (n + 1) % 2 ^ 32

-- The numbers of descriptors, but for the last one.
abbrev pub last_fd : ℕ
last_fd = 4294967295

-- `Error::path(op, fd.to_string(), ErrorKind::Invalid)`
abbrev pub closefd_error : ℕ → Error
closefd_error fd = Error.path "closefd" (decimal fd) ErrorKind.invalid

abbrev pub renumberfd_error : ℕ → Error
renumberfd_error fd = Error.path "renumberfd" (decimal fd) ErrorKind.invalid

abbrev pub fd_error : ℕ → Error
fd_error fd = Error.path "fd" (decimal fd) ErrorKind.invalid

module _ {F : Type 0} where
  -- The table of a new task.
  abbrev pub new_fds : FdTable F
  new_fds = record { files = []; next = 3 }

  unfoldable pub open_fd : F → Bytes → FdTable F → ℕ × FdTable F
  open_fd file path fds =
      let opened = Table.insert fds.next (record { file = file; path = path }) fds.files in
      (fds.next, record { files = opened; next = inc32 fds.next })

  unfoldable pub set_fd : ℕ → F → Bytes → FdTable F → FdTable F
  set_fd fd file path fds =
      let next = if leb fds.next fd then inc32 fd else fds.next in
      record {
        files = Table.insert fd (record { file = file; path = path }) fds.files;
        next = next;
      }

  unfoldable pub path_of : ℕ → Option (OpenFile F) → Result Bytes
  path_of fd none = err (fd_error fd)
  path_of fd (some open_file) = ok open_file.path

  unfoldable pub fd_path : ℕ → FdTable F → Result Bytes
  unfolding path_of
  fd_path fd fds = path_of fd (Table.get fd fds.files)

module _ {F : Type 0} where
  unfoldable pub insert_in_order : ℕ × OpenFile F → Table (OpenFile F) → Table (OpenFile F)
  insert_in_order (fd, f) [] = (fd, f) ∷ []
  insert_in_order (fd, f) ((j, g) ∷ rest) =
      let behind = insert_in_order (fd, f) rest in
      if leb fd j then (fd, f) ∷ (j, g) ∷ rest else (j, g) ∷ behind

  -- The order in which a `BTreeMap` is gone over.
  unfoldable pub in_order : Table (OpenFile F) → Table (OpenFile F)
  unfolding insert_in_order
  in_order [] = []
  in_order (entry ∷ entries) = insert_in_order entry (in_order entries)

module _ {F W : Type 0} (close : F → W → Result (Unit {0}) × F × W) where
  -- What `close_fd` does with the file that it removed.
  unfoldable pub close_found :
      ℕ → Option (OpenFile F) → FdTable F → W → Result (Unit {0}) × FdTable F × W
  close_found fd none fds w = (err (closefd_error fd), fds, w)
  close_found fd (some open_file) fds w = let (r, _, w') = close open_file.file w in (r, fds, w')

  unfoldable pub close_fd : ℕ → FdTable F → W → Result (Unit {0}) × FdTable F × W
  unfolding close_found
  close_fd fd fds w =
      close_found fd (Table.get fd fds.files) (record fds { files = Table.remove fd fds.files }) w

  -- The loop of `clear_fds`, which ends at the first error.
  unfoldable pub close_all : Table (OpenFile F) → W → Result (Unit {0}) × W
  close_all [] w = (ok tt, w)
  close_all ((fd, open_file) ∷ rest) w =
      let (r, _, w') = close open_file.file w in
      elim r [ ok u ↦ close_all rest w' | err e ↦ (err e, w') ]

  -- The files are closed in the order of their descriptors.
  unfoldable pub clear_fds : FdTable F → W → Result (Unit {0}) × FdTable F × W
  unfolding close_all in_order
  clear_fds fds w =
      let (r, w') = close_all (in_order fds.files) w in (r, record fds { files = [] }, w')

  -- After the target was closed: its place is taken by the source, if that succeeded.
  unfoldable pub replace :
      ℕ
      → ℕ
      → OpenFile F
      → OpenFile F
      → FdTable F
      → Result (Unit {0}) × F × W
      → Result (Unit {0}) × FdTable F × W
  replace from to source target fds (err e, f, w) =
      let kept = Table.insert to (record target { file = f }) fds.files in
      (err e, record fds { files = kept }, w)
  replace from to source target fds (ok u, f, w) =
      (ok tt, record fds { files = Table.insert to source (Table.remove from fds.files) }, w)

  unfoldable pub renumber_found :
      ℕ
      → ℕ
      → Option (OpenFile F)
      → Option (OpenFile F)
      → FdTable F
      → W
      → Result (Unit {0}) × FdTable F × W
  unfolding replace
  renumber_found from to none target fds w = (err (renumberfd_error from), fds, w)
  renumber_found from to (some source) none fds w = (err (renumberfd_error to), fds, w)
  renumber_found from to (some source) (some target) fds w =
      replace from to source target fds (close target.file w)

  unfoldable pub renumber_same :
      ℕ → Option (OpenFile F) → FdTable F → W → Result (Unit {0}) × FdTable F × W
  renumber_same from none fds w = (err (renumberfd_error from), fds, w)
  renumber_same from (some source) fds w = (ok tt, fds, w)

  unfoldable pub renumber_fd : ℕ → ℕ → FdTable F → W → Result (Unit {0}) × FdTable F × W
  unfolding renumber_found renumber_same
  renumber_fd from to fds w =
      if from == to
      then renumber_same from (Table.get from fds.files) fds w
      else renumber_found from to (Table.get from fds.files) (Table.get to fds.files) fds w
