-- ===== src/Core/Mode.antt =====
-- `FileMode`, `Metadata`, `DirEntry` and `OpenFlags` of crates/star9-core/src/lib.rs.
-- A `FileMode` and an `OpenFlags` are their bits, an unsigned number of 32 bits.
use star.Base.{ℕ, ◌-◌, Bool, Bytes, bit_and, bit_or, ◌==◌, not, if◌then◌else◌}

abbrev pub FileMode : Type 0
FileMode = ℕ

abbrev pub dir : FileMode
dir = 2147483648

abbrev pub symlink : FileMode
symlink = 1073741824

abbrev pub named_pipe : FileMode
named_pipe = 268435456

abbrev pub socket : FileMode
socket = 134217728

abbrev pub perm_mask : FileMode
perm_mask = 0o777

-- `!x` of a `u32`.
abbrev pub not32 : ℕ → ℕ
not32 x = 4294967295 - x

unfoldable pub from_perm : ℕ → FileMode
from_perm p = bit_and p perm_mask

unfoldable pub perm : FileMode → ℕ
perm m = bit_and m perm_mask

unfoldable pub contains : ℕ → ℕ → Bool
contains m other = bit_and m other == other

unfoldable pub is_dir : FileMode → Bool
unfolding contains
is_dir m = contains m dir

unfoldable pub is_symlink : FileMode → Bool
unfolding contains
is_symlink m = contains m symlink

unfoldable pub with_perm : FileMode → ℕ → FileMode
with_perm m p = bit_or (bit_and m (not32 perm_mask)) (bit_and p perm_mask)

unfoldable pub unix_type_and_perm : FileMode → ℕ
unfolding is_dir is_symlink contains perm
unix_type_and_perm m =
    let typ =
      if is_dir m
      then 0o040000
      else if is_symlink m
      then 0o120000
      else if contains m named_pipe
      then 0o010000
      else if contains m socket
      then 0o140000
      else 0o100000 in
    bit_or typ (perm m)

-- `SystemTime` as the time since `UNIX_EPOCH`.
pub record Time : Type 0 where
  pub secs : ℕ
  pub nanos : ℕ

abbrev pub epoch : Time
epoch = record { secs = 0; nanos = 0 }

pub record Metadata : Type 0 where
  pub name : Bytes
  pub mode : FileMode
  pub size : ℕ
  pub modified : Time
  pub uid : ℕ
  pub gid : ℕ

unfoldable pub new_metadata : Bytes → FileMode → Metadata
unfolding with_perm perm is_dir
new_metadata name mode =
    let mode' = with_perm mode (perm mode) in
    record {
      name = name;
      mode = mode';
      size = if is_dir mode' then 2 else 0;
      modified = epoch;
      uid = 0;
      gid = 0;
    }

unfoldable pub dir_metadata : Bytes → ℕ → Metadata
unfolding new_metadata from_perm
dir_metadata name p = new_metadata name (bit_or dir (from_perm p))

unfoldable pub file_metadata : Bytes → ℕ → ℕ → Metadata
unfolding new_metadata from_perm
file_metadata name p size =
    let meta = new_metadata name (from_perm p) in record meta { size = size }

unfoldable pub symlink_metadata : Bytes → ℕ → Metadata
unfolding new_metadata from_perm
symlink_metadata name size =
    let meta = new_metadata name (bit_or symlink (from_perm 0o777)) in record meta { size = size }

pub record DirEntry : Type 0 where
  pub name : Bytes
  pub metadata : Metadata

-- `OpenFlags`
abbrev pub rdonly : ℕ
rdonly = 0

abbrev pub wronly : ℕ
wronly = 1

abbrev pub rdwr : ℕ
rdwr = 2

abbrev pub create : ℕ
create = 0o100

abbrev pub excl : ℕ
excl = 0o200

abbrev pub trunc : ℕ
trunc = 0o1000

abbrev pub append : ℕ
append = 0o2000

unfoldable pub is_write : ℕ → Bool
is_write flags = not (bit_and flags (bit_or wronly rdwr) == 0)
