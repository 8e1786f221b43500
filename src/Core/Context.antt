-- ===== src/Core/Context.antt =====
-- `FsContext` of crates/star9-core/src/lib.rs.
use star.Base.{Bool, true, false, ◌||◌, Bytes, bytes_eq, codes, Option, none, some, if◌then◌else◌}

pub record FsContext : Type 0 where
  pub follow_symlinks : Bool
  pub read_only : Bool
  pub origin_path : Option Bytes
  pub filepath : Option Bytes
  pub op : Option Bytes

abbrev pub new : FsContext
new = record {
  follow_symlinks = true;
  read_only = false;
  origin_path = none;
  filepath = none;
  op = none;
}

unfoldable pub no_follow : FsContext → FsContext
no_follow ctx = record ctx { follow_symlinks = false }

-- `FsContext::read_only`
unfoldable pub with_read_only : FsContext → FsContext
with_read_only ctx = record ctx { read_only = true }

-- `matches!(op, "open" | "stat" | "readdir" | "readlink")`
unfoldable pub is_read_op : Bytes → Bool
is_read_op op =
    bytes_eq op (codes "open")
    || bytes_eq op (codes "stat")
    || bytes_eq op (codes "readdir")
    || bytes_eq op (codes "readlink")

unfoldable pub origin_of : FsContext → Option Bytes → Bytes → Bytes → FsContext
unfolding is_read_op
origin_of ctx (some origin) path op = ctx
origin_of ctx none path op = record ctx {
  origin_path = some path;
  filepath = some path;
  op = some op;
  read_only = if is_read_op op then true else ctx.read_only;
}

unfoldable pub with_origin : FsContext → Bytes → Bytes → FsContext
unfolding origin_of
with_origin ctx path op = origin_of ctx ctx.origin_path path op
