-- ===== src/P9/Request/Decode.antt =====
-- `decode_request` of crates/star9-protocol/src/p9.rs.
use star.Base.{ℕ, ◌++◌, Bytes, codes, decimal_u8, ◌==◌, if◌then◌else◌}
use star.Core.Error.{Error, Result, ok, err}
use star.P9.Decoder.{
  Decoder, Decode, ◌>>=◌, pure, lift, finish, read_counted_data, read_string, read_u16, read_u32,
  read_u64,
}
use star.P9.Msg.{
  tversion, tattach, twalk, tlopen, tlcreate, tgetattr, tsetattr, txattrwalk, txattrcreate, tread,
  twrite, tclunk, tremove, tmkdir, tlink, treaddir, trenameat, tunlinkat, tsymlink, treadlink,
  tfsync, tflush,
}
use star.P9.Types.{read_names, read_setattr}
use star.P9.Frame.{decode_frame}
use star.P9.Request.{
  NinePRequest, version, attach, walk, lopen, lcreate, get_attr, set_attr, xattr_walk, xattr_create,
  read, write, clunk, remove, mkdir, link, readdir, rename_at, unlink_at, symlink, readlink, fsync,
  flush,
}

-- The `match` of `decode_request`.
unfoldable pub decode_request_body : ℕ → Decode NinePRequest
decode_request_body typ =
    if typ == tversion
    then (do msize ← read_u32; ver ← read_string; pure (version msize ver))
    else if typ == tattach
    then (do
      fid ← read_u32
      afid ← read_u32
      uname ← read_string
      aname ← read_string
      n_uname ← read_u32
      pure (attach fid afid uname aname n_uname))
    else if typ == twalk
    then (do fid ← read_u32; newfid ← read_u32; names ← read_names; pure (walk fid newfid names))
    else if typ == tlopen
    then (do fid ← read_u32; flags ← read_u32; pure (lopen fid flags))
    else if typ == tlcreate
    then (do
      fid ← read_u32
      name ← read_string
      flags ← read_u32
      mode ← read_u32
      gid ← read_u32
      pure (lcreate fid name flags mode gid))
    else if typ == tgetattr
    then (do fid ← read_u32; request_mask ← read_u64; pure (get_attr fid request_mask))
    else if typ == tsetattr
    then (do fid ← read_u32; attr ← read_setattr; pure (set_attr fid attr))
    else if typ == txattrwalk
    then (do
      fid ← read_u32
      newfid ← read_u32
      name ← read_string
      pure (xattr_walk fid newfid name))
    else if typ == txattrcreate
    then (do
      fid ← read_u32
      name ← read_string
      size ← read_u64
      flags ← read_u32
      pure (xattr_create fid name size flags))
    else if typ == tread
    then (do fid ← read_u32; offset ← read_u64; count ← read_u32; pure (read fid offset count))
    else if typ == twrite
    then (do
      fid ← read_u32
      offset ← read_u64
      content ← read_counted_data
      pure (write fid offset content))
    else if typ == tclunk
    then (do fid ← read_u32; pure (clunk fid))
    else if typ == tremove
    then (do fid ← read_u32; pure (remove fid))
    else if typ == tmkdir
    then (do
      fid ← read_u32
      name ← read_string
      mode ← read_u32
      gid ← read_u32
      pure (mkdir fid name mode gid))
    else if typ == tlink
    then (do
      fid ← read_u32
      newdirfid ← read_u32
      name ← read_string
      pure (link fid newdirfid name))
    else if typ == treaddir
    then (do fid ← read_u32; offset ← read_u64; count ← read_u32; pure (readdir fid offset count))
    else if typ == trenameat
    then (do
      olddirfid ← read_u32
      oldname ← read_string
      newdirfid ← read_u32
      newname ← read_string
      pure (rename_at olddirfid oldname newdirfid newname))
    else if typ == tunlinkat
    then (do
      dirfid ← read_u32
      name ← read_string
      flags ← read_u32
      pure (unlink_at dirfid name flags))
    else if typ == tsymlink
    then (do
      fid ← read_u32
      name ← read_string
      target ← read_string
      gid ← read_u32
      pure (symlink fid name target gid))
    else if typ == treadlink
    then (do fid ← read_u32; pure (readlink fid))
    else if typ == tfsync
    then (do fid ← read_u32; pure (fsync fid))
    else if typ == tflush
    then (do oldtag ← read_u16; pure (flush oldtag))
    else lift (err (Error.message (codes "unsupported 9P request type " ++ decimal_u8 typ)))

-- The rest of the function, on a decoder for the body: `d.finish()?; Ok((tag, request))`.
unfoldable pub finish_request : ℕ → NinePRequest → Decode (ℕ × NinePRequest)
finish_request tag request = do _ ← finish; pure (tag, request)

abbrev value_of {ℓ} : {A : Type ℓ} → Result (A × Decoder) → Result A
value_of (ok (a, d)) = ok a
value_of (err e) = err e

unfoldable pub decode_request : Bytes → Result (ℕ × NinePRequest)
unfolding finish_request
decode_request frame = elim (decode_frame frame) [
  | ok (typ, tag, d) ↦
      value_of ((do request ← decode_request_body typ; finish_request tag request) d)
  | err e ↦ err e
]
