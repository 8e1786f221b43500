-- ===== src/Tests/Server.antt =====
-- Runs of the 9P server of crates/star9-protocol/src/p9.rs over a file system of one directory.
use star.Base.{◌≡◌, refl, arith, Bytes, codes, [], ◌∷◌, none, some}
use star.Base.Table
use star.Core.Error.{Error, ErrorKind, ok, err}
use star.Core.Mode.{epoch, dir_metadata}
use star.Core.Path.{dot}
use star.Fs.{FileSystem}
use star.P9.Xattr
use star.P9.Server.State.{FidHandle, FidState, ServerState, unopened, invalid}
use star.P9.Server.Walk.{walk, clunk}
use star.P9.Server.Handle.{handle_frame}
use star.P9.Server.Keeps.{IsSafe}
use star.P9.Server.Safe.{handle_frame-IsSafe}
use star.P9.Server.Effects.{fids-clunk, clunk_incomplete}
use star.P9.Server.Others.{walk-kept}
use star.P9.Xattr.Ranges.{covers}
use star.P9.Xattr.Complete.{IsSound}

abbrev denied : Error
denied = Error.kind ErrorKind.permission_denied

-- A directory in which nothing can be changed.
abbrev only_root : FileSystem
only_root = record {
  Fs = Unit {0};
  File = Unit {0};
  lstat = λ path fs. (ok (dir_metadata path 0o755), fs);
  read_dir = λ path fs. (ok [], fs);
  open_file = λ path flags mode fs. (ok tt, fs);
  mkdir = λ path mode fs. (err denied, fs);
  remove = λ path fs. (err denied, fs);
  rename = λ old new fs. (err denied, fs);
  link = λ old new fs. (err denied, fs);
  chmod = λ path mode fs. (err denied, fs);
  chown = λ path uid gid fs. (err denied, fs);
  chtimes = λ path mtime fs. (err denied, fs);
  truncate = λ path size fs. (err denied, fs);
  symlink = λ target path fs. (err denied, fs);
  readlink = λ path fs. (err denied, fs);
  set_xattr = λ path name value fs. (err denied, fs);
  get_xattr = λ path name fs. (err denied, fs);
  list_xattrs = λ path fs. (ok [], fs);
  file_stat = λ f fs. (ok (dir_metadata dot 0o755), f, fs);
  file_read_at = λ offset count f fs. (ok [], f, fs);
  file_write_at = λ content offset f fs. (err denied, f, fs);
  file_sync = λ f fs. (ok tt, f, fs);
  file_close = λ f fs. (ok tt, f, fs);
  now = λ fs. epoch;
}

abbrev part : Xattr.XattrWriteState
part = Xattr.new (codes "user.x") 0 2

abbrev writing : FidState (Unit {0})
writing = record { path = dot; handle = FidHandle.xattr_write part; flags = 1 }

abbrev server : ServerState only_root
server = record {
  fs = tt;
  msize = 65536;
  fids = Table.insert 2 writing (Table.insert 1 (unopened dot) []);
}

abbrev empty_server : ServerState only_root
empty_server = record { fs = tt; msize = 65536; fids = [] }

empty_server-IsSafe : IsSafe empty_server
unfolding Table.get
empty_server-IsSafe = record { fids = λ fid st p. let q : none ≡ some st = p in absurd (cc q) }

-- A `Tattach` of the fid 1.
abbrev attach_frame : Bytes
attach_frame =
    23 ∷ 0 ∷ 0 ∷ 0 ∷ 104 ∷ 0 ∷ 0 ∷ 1 ∷ 0 ∷ 0 ∷ 0 ∷ 255 ∷ 255 ∷ 255 ∷ 255 ∷ 0 ∷ 0 ∷ 0 ∷ 0 ∷ 0 ∷ 0 ∷ 0
    ∷ 0 ∷ []

handle_frame-IsSafe_example : IsSafe (handle_frame attach_frame empty_server).1
handle_frame-IsSafe_example = handle_frame-IsSafe attach_frame empty_server empty_server-IsSafe

fids-clunk_example : (clunk 1 server).1.fids ≡ Table.remove 1 server.fids
fids-clunk_example = fids-clunk 1 server

walk-kept_example : Table.get 2 (walk 1 3 (codes "a" ∷ []) server).1.fids ≡ Table.get 2 server.fids
unfolding Table.contains_key Table.insert Table.get
walk-kept_example = walk-kept 1 3 2 (codes "a" ∷ []) server (λ e. omega (arith, e)) refl

part-IsSound : IsSound part
unfolding Xattr.new
part-IsSound = record { size = refl; normal = tt; bounded = tt }

clunk_incomplete_example :
    clunk 2 server ≡ (err invalid, record server { fids = Table.remove 2 server.fids })
unfolding Table.get Table.insert Xattr.new covers
clunk_incomplete_example =
    clunk_incomplete 2 1 server writing part refl refl part-IsSound (omega arith) refl refl
