-- ===== src/P9/Response/Decode.antt =====
-- `decode_response` of crates/star9-protocol/src/p9.rs.
use star.Base.{ℕ, ◌++◌, Bytes, codes, decimal_u8, ◌==◌, if◌then◌else◌}
use star.Core.Error.{Error, Result, ok, err}
use star.P9.Decoder.{
  Decoder, Decode, ◌>>=◌, pure, lift, finish, read_counted_data, read_string, read_u32, read_u64,
}
use star.P9.Msg.{
  rlerror, rversion, rattach, rwalk, rlopen, rlcreate, rgetattr, rsetattr, rxattrwalk, rxattrcreate,
  rread, rwrite, rclunk, rremove, rmkdir, rlink, rreaddir, rrenameat, runlinkat, rsymlink,
  rreadlink, rfsync, rflush,
}
use star.P9.Types.{read_attr, read_qid, read_qids}
use star.P9.Frame.{decode_frame}
use star.P9.Response.{
  NinePResponse, lerror, version, attach, walk, lopen, lcreate, get_attr, set_attr, xattr_walk,
  xattr_create, read, write, clunk, remove, mkdir, link, readdir, rename_at, unlink_at, symlink,
  readlink, fsync, flush,
}

-- The `match` of `decode_response`.
unfoldable pub decode_response_body : ℕ → Decode NinePResponse
decode_response_body typ =
    if typ == rlerror
    then (do ecode ← read_u32; pure (lerror ecode))
    else if typ == rversion
    then (do msize ← read_u32; ver ← read_string; pure (version msize ver))
    else if typ == rattach
    then (do qid ← read_qid; pure (attach qid))
    else if typ == rwalk
    then (do qids ← read_qids; pure (walk qids))
    else if typ == rlopen
    then (do qid ← read_qid; iounit ← read_u32; pure (lopen qid iounit))
    else if typ == rlcreate
    then (do qid ← read_qid; iounit ← read_u32; pure (lcreate qid iounit))
    else if typ == rgetattr
    then (do attr ← read_attr; pure (get_attr attr))
    else if typ == rsetattr
    then pure set_attr
    else if typ == rxattrwalk
    then (do size ← read_u64; pure (xattr_walk size))
    else if typ == rxattrcreate
    then pure xattr_create
    else if typ == rread
    then (do content ← read_counted_data; pure (read content))
    else if typ == rwrite
    then (do count ← read_u32; pure (write count))
    else if typ == rclunk
    then pure clunk
    else if typ == rremove
    then pure remove
    else if typ == rmkdir
    then (do qid ← read_qid; pure (mkdir qid))
    else if typ == rlink
    then pure link
    else if typ == rreaddir
    then (do content ← read_counted_data; pure (readdir content))
    else if typ == rrenameat
    then pure rename_at
    else if typ == runlinkat
    then pure unlink_at
    else if typ == rsymlink
    then (do qid ← read_qid; pure (symlink qid))
    else if typ == rreadlink
    then (do target ← read_string; pure (readlink target))
    else if typ == rfsync
    then pure fsync
    else if typ == rflush
    then pure flush
    else lift (err (Error.message (codes "unsupported 9P response type " ++ decimal_u8 typ)))

-- The rest of the function, on a decoder for the body: `d.finish()?; Ok((tag, response))`.
unfoldable pub finish_response : ℕ → NinePResponse → Decode (ℕ × NinePResponse)
finish_response tag response = do _ ← finish; pure (tag, response)

abbrev value_of {ℓ} : {A : Type ℓ} → Result (A × Decoder) → Result A
value_of (ok (a, d)) = ok a
value_of (err e) = err e

unfoldable pub decode_response : Bytes → Result (ℕ × NinePResponse)
unfolding finish_response
decode_response frame = elim (decode_frame frame) [
  | ok (typ, tag, d) ↦
      value_of ((do response ← decode_response_body typ; finish_response tag response) d)
  | err e ↦ err e
]
