-- ===== src/Tests/Namespace.antt =====
-- Calls of the namespace of crates/star9-vfs/src/lib.rs on two file systems.
use star.Base.{ℕ, ◌==◌, [], ◌∷◌, bytes_eq, codes, if◌then◌else◌}
use star.Core.Error.{Error, ErrorKind, Result, ok, err}
use star.Core.Mode.{dir_metadata, file_metadata}
use star.Core.Context
use star.Core.Context.{FsContext}
use star.Core.Path.{dot}
use star.Vfs.Bindings.{BindTarget, Bindings}
use star.Vfs.Systems.{Systems}

abbrev refused : {A : Type 0} → Result A × Unit {0}
refused = (err (Error.kind ErrorKind.permission_denied), tt)

-- The file system 2 has the file `a` only, and 1 the file `b` too. A file is the number of its system.
abbrev two_systems : Systems
two_systems = record {
  World = Unit {0};
  File = ℕ;
  stat = λ fs ctx path w.
      if bytes_eq path (codes "a")
      then (ok (file_metadata path 0o644 3), w)
      else if fs == 1
      then (ok (file_metadata path 0o644 4), w)
      else (err (Error.kind ErrorKind.not_found), w);
  read_dir = λ fs ctx path w. (ok [], w);
  opened = λ fs ctx path w. (ok fs, w);
  create = λ fs path w. refused;
  mkdir = λ fs path perm w. refused;
  remove = λ fs path w. refused;
  rename = λ fs old new w. refused;
  link = λ fs old new w. refused;
  chmod = λ fs path mode w. refused;
  chown = λ fs path uid gid w. refused;
  chtimes = λ fs path mtime w. refused;
  truncate = λ fs path size w. refused;
  symlink = λ fs old path w. refused;
  readlink = λ fs path w. refused;
}

abbrev root_of : ℕ → BindTarget
root_of fs = record { fs = fs; path = dot; metadata = dir_metadata dot 0o755 }

abbrev union : Bindings
union = (dot, root_of 2 ∷ root_of 1 ∷ []) ∷ []
