-- ===== src/P9/Response.antt =====
-- `NinePResponse` of crates/star9-protocol/src/p9.rs with `encode_response` and `decode_response`.
-- A field `data` of the source is named `content`, and a field `version` is named `ver`.
pub mod Decode
pub mod WireForm
pub mod RoundTrip
use star.Base.{ℕ, List, [], ◌++◌, Bytes, codes, decimal_u8, ◌==◌, if◌then◌else◌}
use star.Core.Error.{Error, Result, ok, err, ◌>>=◌}
use star.P9.Wire.{put_counted_data, put_string, put_u32, put_u64}
use star.P9.Decoder
use star.P9.Msg.{
  rlerror, rversion, rattach, rwalk, rlopen, rlcreate, rgetattr, rsetattr, rxattrwalk, rxattrcreate,
  rread, rwrite, rclunk, rremove, rmkdir, rlink, rreaddir, rrenameat, runlinkat, rsymlink,
  rreadlink, rfsync, rflush,
}
use star.P9.Types.{NinePAttr, Qid, encode_attr, encode_qid, put_qids}
use star.P9.Frame.{encode_frame}

pub data NinePResponse : Type 0 where
  lerror : (ecode : ℕ) → NinePResponse
  version : (msize : ℕ) (ver : Bytes) → NinePResponse
  attach : (qid : Qid) → NinePResponse
  walk : (qids : List Qid) → NinePResponse
  lopen : (qid : Qid) (iounit : ℕ) → NinePResponse
  lcreate : (qid : Qid) (iounit : ℕ) → NinePResponse
  get_attr : (attr : NinePAttr) → NinePResponse
  set_attr : NinePResponse
  xattr_walk : (size : ℕ) → NinePResponse
  xattr_create : NinePResponse
  read : (content : Bytes) → NinePResponse
  write : (count : ℕ) → NinePResponse
  clunk : NinePResponse
  remove : NinePResponse
  mkdir : (qid : Qid) → NinePResponse
  link : NinePResponse
  readdir : (content : Bytes) → NinePResponse
  rename_at : NinePResponse
  unlink_at : NinePResponse
  symlink : (qid : Qid) → NinePResponse
  readlink : (target : Bytes) → NinePResponse
  fsync : NinePResponse
  flush : NinePResponse

-- The `match` of `encode_response`: the type and the body of the frame.
unfoldable pub response_body : NinePResponse → Result (ℕ × Bytes)
response_body (lerror ecode) = ok (rlerror, put_u32 [] ecode)
response_body (version msize ver) = do body ← put_string (put_u32 [] msize) ver; ok (rversion, body)
response_body (attach qid) = ok (rattach, encode_qid [] qid)
response_body (walk qids) = do body ← put_qids [] qids; ok (rwalk, body)
response_body (lopen qid iounit) = ok (rlopen, put_u32 (encode_qid [] qid) iounit)
response_body (lcreate qid iounit) = ok (rlcreate, put_u32 (encode_qid [] qid) iounit)
response_body (get_attr attr) = ok (rgetattr, encode_attr [] attr)
response_body set_attr = ok (rsetattr, [])
response_body (xattr_walk size) = ok (rxattrwalk, put_u64 [] size)
response_body xattr_create = ok (rxattrcreate, [])
response_body (read content) = do body ← put_counted_data [] content; ok (rread, body)
response_body (write count) = ok (rwrite, put_u32 [] count)
response_body clunk = ok (rclunk, [])
response_body remove = ok (rremove, [])
response_body (mkdir qid) = ok (rmkdir, encode_qid [] qid)
response_body link = ok (rlink, [])
response_body (readdir content) = do body ← put_counted_data [] content; ok (rreaddir, body)
response_body rename_at = ok (rrenameat, [])
response_body unlink_at = ok (runlinkat, [])
response_body (symlink qid) = ok (rsymlink, encode_qid [] qid)
response_body (readlink target) = do body ← put_string [] target; ok (rreadlink, body)
response_body fsync = ok (rfsync, [])
response_body flush = ok (rflush, [])

unfoldable pub encode_response : ℕ → NinePResponse → Result Bytes
encode_response tag response = do (typ, body) ← response_body response; encode_frame typ tag body
