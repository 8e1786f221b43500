-- ===== src/P9/Attr.antt =====
-- The conversions of crates/star9-protocol/src/p9.rs between the file system's values and 9P's.
pub mod Laws
use star.Base.{
  ℕ, ◌+◌, ◌*◌, ◌/◌, ◌%◌, ◌^◌, Bool, true, false, not, ◌||◌, List, [], ◌∷◌, ◌++◌, Bytes, codes,
  bytes_eq, bit_and, bit_or, bit_xor, ◌==◌, if◌then◌else◌, length,
}
use star.Core.Error.{ErrorKind, Error, Result, ok, err, kind_of}
use star.Core.Path.{slash, dot, dot_dot, is_nil, clean_path, parent_path}
use star.Core.Mode
use star.Core.Mode.{FileMode, Metadata, is_dir, is_symlink, from_perm, unix_type_and_perm}
use star.P9.Types.{Qid, NinePAttr}

-- `fnv1a64`, from any start.
unfoldable pub fnv_loop : ℕ → Bytes → ℕ
fnv_loop hash [] = hash
fnv_loop hash (byte ∷ bytes) = fnv_loop (bit_xor hash byte * 0x100000001b3 % 2 ^ 64) bytes

unfoldable pub fnv1a64 : Bytes → ℕ
unfolding fnv_loop
fnv1a64 bytes = fnv_loop 0xcbf29ce484222325 bytes

unfoldable pub qid_from_meta : Bytes → Metadata → Qid
unfolding fnv1a64
qid_from_meta path meta = record {
  typ = if is_dir meta.mode then 0x80 else if is_symlink meta.mode then 0x02 else 0;
  version = 0;
  path = fnv1a64 path;
}

abbrev pub attr_basic : ℕ
attr_basic = 0x6ff

-- `attr_for`, with the number of entries that `read_dir` returned, 0 if it failed.
unfoldable pub attr_with : Bytes → Metadata → ℕ → ℕ → NinePAttr
unfolding qid_from_meta
attr_with path meta request_mask entries = record {
  valid = bit_and request_mask attr_basic;
  qid = qid_from_meta path meta;
  mode = unix_type_and_perm meta.mode;
  uid = meta.uid;
  gid = meta.gid;
  nlink = if is_dir meta.mode then 2 + entries else 1;
  rdev = 0;
  size = meta.size;
  blksize = 65536;
  blocks = (meta.size + 65535) / 65536;
  atime_seconds = meta.modified.secs;
  atime_nanoseconds = meta.modified.nanos;
  mtime_seconds = meta.modified.secs;
  mtime_nanoseconds = meta.modified.nanos;
  ctime_seconds = meta.modified.secs;
  ctime_nanoseconds = meta.modified.nanos;
  btime_seconds = 0;
  btime_nanoseconds = 0;
  gen = 0;
  data_version = 0;
}

unfoldable pub mode_from_unix : ℕ → FileMode
mode_from_unix mode =
    let typ = bit_and mode 0o170000 in
    let kind =
      if typ == 0o040000
      then Mode.dir
      else if typ == 0o120000
      then Mode.symlink
      else if typ == 0o010000
      then Mode.named_pipe
      else if typ == 0o140000
      then Mode.socket
      else 0 in
    bit_or kind (from_perm (bit_and mode 0o777))

unfoldable pub mode_from_dirent_type : ℕ → FileMode
mode_from_dirent_type typ =
    if typ == 4
    then bit_or Mode.dir (from_perm 0o755)
    else if typ == 10
    then bit_or Mode.symlink (from_perm 0o777)
    else from_perm 0o644

unfoldable pub dirent_type : FileMode → ℕ
dirent_type mode = if is_dir mode then 4 else if is_symlink mode then 10 else 8

-- `errno_for_error`, by the kind of the error.
unfoldable pub errno_of_kind : ErrorKind → ℕ
errno_of_kind ErrorKind.not_found = 2
errno_of_kind ErrorKind.already_exists = 17
errno_of_kind ErrorKind.invalid = 22
errno_of_kind ErrorKind.permission_denied = 13
errno_of_kind ErrorKind.not_supported = 38
errno_of_kind ErrorKind.not_empty = 39
errno_of_kind ErrorKind.closed = 9
errno_of_kind ErrorKind.not_dir = 20
errno_of_kind ErrorKind.is_dir = 21
errno_of_kind ErrorKind.unexpected_eof = 5
errno_of_kind ErrorKind.other = 5

unfoldable pub errno_for_error : Error → ℕ
unfolding errno_of_kind
errno_for_error e = errno_of_kind (kind_of e)

unfoldable pub errno_to_error : ℕ → Error
errno_to_error errno =
    if errno == 1
    then Error.kind ErrorKind.permission_denied
    else if errno == 2
    then Error.kind ErrorKind.not_found
    else if errno == 9
    then Error.kind ErrorKind.invalid
    else if errno == 13
    then Error.kind ErrorKind.permission_denied
    else if errno == 17
    then Error.kind ErrorKind.already_exists
    else if errno == 20
    then Error.kind ErrorKind.not_dir
    else if errno == 21
    then Error.kind ErrorKind.is_dir
    else if errno == 22
    then Error.kind ErrorKind.invalid
    else if errno == 38
    then Error.kind ErrorKind.not_supported
    else if errno == 39
    then Error.kind ErrorKind.not_empty
    else Error.kind ErrorKind.other

abbrev or_flag : ℕ → ℕ → ℕ → ℕ
or_flag flags bit out = if bit_and flags bit == 0 then out else bit_or out bit

unfoldable pub open_flags_from_9p : ℕ → ℕ
open_flags_from_9p flags =
    let mode = bit_and flags 3 in
    let out = if mode == 1 then Mode.wronly else if mode == 2 then Mode.rdwr else Mode.rdonly in
    or_flag flags Mode.append
      (or_flag flags Mode.trunc (or_flag flags Mode.excl (or_flag flags Mode.create out)))

-- `name.contains('/')`
unfoldable pub contains_slash : Bytes → Bool
contains_slash [] = false
contains_slash (c ∷ cs) = c == slash || contains_slash cs

unfoldable pub join_path : Bytes → Bytes → Bytes
join_path base name =
    if bytes_eq base dot then clean_path name else clean_path (base ++ slash ∷ name)

unfoldable pub walk_join : Bytes → Bytes → Bytes
walk_join base name =
    if bytes_eq name dot
    then base
    else if bytes_eq name dot_dot
    then parent_path base
    else join_path base name

unfoldable pub checked_join : Bytes → Bytes → Result Bytes
unfolding contains_slash
checked_join base name =
    if is_nil name || contains_slash name || bytes_eq name dot || bytes_eq name dot_dot
    then err (Error.kind ErrorKind.invalid)
    else ok (join_path base name)
