-- ===== src/P9/Request.antt =====
-- `NinePRequest` of crates/star9-protocol/src/p9.rs with `encode_request` and `decode_request`.
-- A field `data` of the source is named `content`, and a field `version` is named `ver`.
pub mod Decode
pub mod WireForm
pub mod RoundTrip
use star.Base.{ℕ, List, [], ◌++◌, Bytes, codes, decimal_u8, ◌==◌, if◌then◌else◌}
use star.Core.Error.{Error, Result, ok, err, ◌>>=◌}
use star.P9.Wire.{put_counted_data, put_string, put_u16, put_u32, put_u64}
use star.P9.Decoder
use star.P9.Msg.{
  tversion, tattach, twalk, tlopen, tlcreate, tgetattr, tsetattr, txattrwalk, txattrcreate, tread,
  twrite, tclunk, tremove, tmkdir, tlink, treaddir, trenameat, tunlinkat, tsymlink, treadlink,
  tfsync, tflush,
}
use star.P9.Types.{SetAttr, encode_setattr, put_names}
use star.P9.Frame.{encode_frame}

pub data NinePRequest : Type 0 where
  version : (msize : ℕ) (ver : Bytes) → NinePRequest
  attach : (fid : ℕ) (afid : ℕ) (uname : Bytes) (aname : Bytes) (n_uname : ℕ) → NinePRequest
  walk : (fid : ℕ) (newfid : ℕ) (names : List Bytes) → NinePRequest
  lopen : (fid : ℕ) (flags : ℕ) → NinePRequest
  lcreate : (fid : ℕ) (name : Bytes) (flags : ℕ) (mode : ℕ) (gid : ℕ) → NinePRequest
  get_attr : (fid : ℕ) (request_mask : ℕ) → NinePRequest
  set_attr : (fid : ℕ) (attr : SetAttr) → NinePRequest
  xattr_walk : (fid : ℕ) (newfid : ℕ) (name : Bytes) → NinePRequest
  xattr_create : (fid : ℕ) (name : Bytes) (size : ℕ) (flags : ℕ) → NinePRequest
  read : (fid : ℕ) (offset : ℕ) (count : ℕ) → NinePRequest
  write : (fid : ℕ) (offset : ℕ) (content : Bytes) → NinePRequest
  clunk : (fid : ℕ) → NinePRequest
  remove : (fid : ℕ) → NinePRequest
  mkdir : (fid : ℕ) (name : Bytes) (mode : ℕ) (gid : ℕ) → NinePRequest
  link : (fid : ℕ) (newdirfid : ℕ) (name : Bytes) → NinePRequest
  readdir : (fid : ℕ) (offset : ℕ) (count : ℕ) → NinePRequest
  rename_at : (olddirfid : ℕ) (oldname : Bytes) (newdirfid : ℕ) (newname : Bytes) → NinePRequest
  unlink_at : (dirfid : ℕ) (name : Bytes) (flags : ℕ) → NinePRequest
  symlink : (fid : ℕ) (name : Bytes) (target : Bytes) (gid : ℕ) → NinePRequest
  readlink : (fid : ℕ) → NinePRequest
  fsync : (fid : ℕ) → NinePRequest
  flush : (oldtag : ℕ) → NinePRequest

-- The `match` of `encode_request`: the type and the body of the frame.
unfoldable pub request_body : NinePRequest → Result (ℕ × Bytes)
request_body (version msize ver) = do body ← put_string (put_u32 [] msize) ver; ok (tversion, body)
request_body (attach fid afid uname aname n_uname) = do
  body ← put_string (put_u32 (put_u32 [] fid) afid) uname
  body2 ← put_string body aname
  ok (tattach, put_u32 body2 n_uname)
request_body (walk fid newfid names) = do
  body ← put_names (put_u32 (put_u32 [] fid) newfid) names
  ok (twalk, body)
request_body (lopen fid flags) = ok (tlopen, put_u32 (put_u32 [] fid) flags)
request_body (lcreate fid name flags mode gid) = do
  body ← put_string (put_u32 [] fid) name
  ok (tlcreate, put_u32 (put_u32 (put_u32 body flags) mode) gid)
request_body (get_attr fid request_mask) = ok (tgetattr, put_u64 (put_u32 [] fid) request_mask)
request_body (set_attr fid attr) = ok (tsetattr, encode_setattr (put_u32 [] fid) attr)
request_body (xattr_walk fid newfid name) = do
  body ← put_string (put_u32 (put_u32 [] fid) newfid) name
  ok (txattrwalk, body)
request_body (xattr_create fid name size flags) = do
  body ← put_string (put_u32 [] fid) name
  ok (txattrcreate, put_u32 (put_u64 body size) flags)
request_body (read fid offset count) = ok (tread, put_u32 (put_u64 (put_u32 [] fid) offset) count)
request_body (write fid offset content) = do
  body ← put_counted_data (put_u64 (put_u32 [] fid) offset) content
  ok (twrite, body)
request_body (clunk fid) = ok (tclunk, put_u32 [] fid)
request_body (remove fid) = ok (tremove, put_u32 [] fid)
request_body (mkdir fid name mode gid) = do
  body ← put_string (put_u32 [] fid) name
  ok (tmkdir, put_u32 (put_u32 body mode) gid)
request_body (link fid newdirfid name) = do
  body ← put_string (put_u32 (put_u32 [] fid) newdirfid) name
  ok (tlink, body)
request_body (readdir fid offset count) =
    ok (treaddir, put_u32 (put_u64 (put_u32 [] fid) offset) count)
request_body (rename_at olddirfid oldname newdirfid newname) = do
  body ← put_string (put_u32 [] olddirfid) oldname
  body2 ← put_string (put_u32 body newdirfid) newname
  ok (trenameat, body2)
request_body (unlink_at dirfid name flags) = do
  body ← put_string (put_u32 [] dirfid) name
  ok (tunlinkat, put_u32 body flags)
request_body (symlink fid name target gid) = do
  body ← put_string (put_u32 [] fid) name
  body2 ← put_string body target
  ok (tsymlink, put_u32 body2 gid)
request_body (readlink fid) = ok (treadlink, put_u32 [] fid)
request_body (fsync fid) = ok (tfsync, put_u32 [] fid)
request_body (flush oldtag) = ok (tflush, put_u16 [] oldtag)

unfoldable pub encode_request : ℕ → NinePRequest → Result Bytes
encode_request tag request = do (typ, body) ← request_body request; encode_frame typ tag body
