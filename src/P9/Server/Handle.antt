-- ===== src/P9/Server/Handle.antt =====
-- `handle` and `handle_frame` of `NinePServer`.
use star.Base.{ℕ, min, Bytes, codes, starts_with, if◌then◌else◌}
use star.Core.Error.{Result, ok, err}
use star.Fs.{FileSystem}
use star.P9.Attr.{errno_for_error}
use star.P9.Request.{NinePRequest}
use star.P9.Request.Decode.{decode_request}
use star.P9.Response.{NinePResponse, encode_response}
use star.P9.Server.State.{Exec, ◌>>=◌, pure}
use star.P9.Server.Walk
use star.P9.Server.Io
use star.P9.Server.Names

abbrev pub default_msize : ℕ
default_msize = 65536

module _ {sys : FileSystem} where
  unfoldable pub set_msize : ℕ → Exec sys (Unit {0})
  set_msize msize s = (ok tt, record s { msize = msize })

  unfoldable pub negotiate : ℕ → Bytes → Exec sys NinePResponse
  unfolding set_msize
  negotiate msize ver = do
    let negotiated = min msize default_msize
    _ ← set_msize negotiated
    pure (
        NinePResponse.version negotiated
          (if starts_with (codes "9P2000") ver then codes "9P2000.L" else codes "unknown"))

  unfoldable pub handle : NinePRequest → Exec sys NinePResponse
  handle (NinePRequest.version msize ver) = negotiate msize ver
  handle (NinePRequest.attach fid afid uname aname n_uname) = Walk.attach fid
  handle (NinePRequest.walk fid newfid names) = Walk.walk fid newfid names
  handle (NinePRequest.lopen fid flags) = Walk.lopen fid flags
  handle (NinePRequest.lcreate fid name flags mode gid) = Walk.lcreate fid name flags mode
  handle (NinePRequest.get_attr fid request_mask) = Io.getattr fid request_mask
  handle (NinePRequest.set_attr fid attr) = Io.setattr fid attr
  handle (NinePRequest.xattr_walk fid newfid name) = Io.xattrwalk fid newfid name
  handle (NinePRequest.xattr_create fid name size flags) = Io.xattrcreate fid name size flags
  handle (NinePRequest.read fid offset count) = Io.read fid offset count
  handle (NinePRequest.write fid offset content) = Names.write fid offset content
  handle (NinePRequest.clunk fid) = Walk.clunk fid
  handle (NinePRequest.remove fid) = Walk.remove fid
  handle (NinePRequest.mkdir fid name mode gid) = Names.mkdir fid name mode
  handle (NinePRequest.link fid newdirfid name) = Names.link fid newdirfid name
  handle (NinePRequest.readdir fid offset count) = Names.readdir fid offset count
  handle (NinePRequest.rename_at olddirfid oldname newdirfid newname) =
      Names.rename_at olddirfid oldname newdirfid newname
  handle (NinePRequest.unlink_at dirfid name flags) = Names.unlink_at dirfid name flags
  handle (NinePRequest.symlink fid name target gid) = Names.symlink fid name target
  handle (NinePRequest.readlink fid) = Names.readlink fid
  handle (NinePRequest.fsync fid) = Names.fsync fid
  handle (NinePRequest.flush oldtag) = pure NinePResponse.flush

-- An error of a handler becomes a response.
unfoldable pub or_lerror : Result NinePResponse → NinePResponse
or_lerror (ok response) = response
or_lerror (err e) = NinePResponse.lerror (errno_for_error e)

module _ {sys : FileSystem} where
  unfoldable pub answer : Result (ℕ × NinePRequest) → Exec sys Bytes
  answer (err e) s = (err e, s)
  answer (ok (tag, request)) s =
      let (r, s') = handle request s in (encode_response tag (or_lerror r), s')

  unfoldable pub handle_frame : Bytes → Exec sys Bytes
  unfolding answer or_lerror
  handle_frame frame = answer (decode_request frame)
