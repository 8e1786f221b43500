-- ===== src/P9/Server/Safe.antt =====
-- Every request and every frame keep the server's state safe.
pub mod Fids
pub mod Io
pub mod Names
use star.Base.{ℕ, Bytes, []}
use star.Core.Error.{Result, ok, err}
use star.Fs.{FileSystem}
use star.P9.Request.{NinePRequest}
use star.P9.Request.Decode.{decode_request}
use star.P9.Server.State.{ServerState}
use star.P9.Server.Handle.{set_msize, negotiate, handle, answer, handle_frame}
use star.P9.Server.Keeps.{IsSafe, Keeps, Any, Keeps-pure, Keeps-bind}
use Fids.{Keeps-attach, Keeps-walk, Keeps-lopen, Keeps-lcreate, Keeps-clunk, Keeps-remove}
use Io.{Keeps-getattr, Keeps-setattr, Keeps-xattrwalk, Keeps-xattrcreate, Keeps-read}
use Names.{
  Keeps-write, Keeps-mkdir, Keeps-link, Keeps-readdir, Keeps-rename_at, Keeps-unlink_at,
  Keeps-symlink, Keeps-readlink, Keeps-fsync,
}

module _ {sys : FileSystem} where
  Keeps-negotiate : (msize : ℕ) (ver : Bytes) → Keeps (negotiate {sys = sys} msize ver) Any
  unfolding negotiate
  Keeps-negotiate msize ver =
      Keeps-bind _ (record { at = λ s h. (record { fids = h.fids }, λ a e. tt) })
        λ _ _. Keeps-pure _ tt

  Keeps-handle : (request : NinePRequest) → Keeps (handle {sys = sys} request) Any
  unfolding handle
  Keeps-handle (NinePRequest.version msize ver) = Keeps-negotiate msize ver
  Keeps-handle (NinePRequest.attach fid _ _ _ _) = Keeps-attach fid
  Keeps-handle (NinePRequest.walk fid newfid names) = Keeps-walk fid newfid names
  Keeps-handle (NinePRequest.lopen fid flags) = Keeps-lopen fid flags
  Keeps-handle (NinePRequest.lcreate fid name flags mode _) = Keeps-lcreate fid name flags mode
  Keeps-handle (NinePRequest.get_attr fid request_mask) = Keeps-getattr fid request_mask
  Keeps-handle (NinePRequest.set_attr fid attr) = Keeps-setattr fid attr
  Keeps-handle (NinePRequest.xattr_walk fid newfid name) = Keeps-xattrwalk fid newfid name
  Keeps-handle (NinePRequest.xattr_create fid name size flags) =
      Keeps-xattrcreate fid name size flags
  Keeps-handle (NinePRequest.read fid offset count) = Keeps-read fid offset count
  Keeps-handle (NinePRequest.write fid offset content) = Keeps-write fid offset content
  Keeps-handle (NinePRequest.clunk fid) = Keeps-clunk fid
  Keeps-handle (NinePRequest.remove fid) = Keeps-remove fid
  Keeps-handle (NinePRequest.mkdir fid name mode _) = Keeps-mkdir fid name mode
  Keeps-handle (NinePRequest.link fid newdirfid name) = Keeps-link fid newdirfid name
  Keeps-handle (NinePRequest.readdir fid offset count) = Keeps-readdir fid offset count
  Keeps-handle (NinePRequest.rename_at olddirfid oldname newdirfid newname) =
      Keeps-rename_at olddirfid oldname newdirfid newname
  Keeps-handle (NinePRequest.unlink_at dirfid name flags) = Keeps-unlink_at dirfid name flags
  Keeps-handle (NinePRequest.symlink fid name target _) = Keeps-symlink fid name target
  Keeps-handle (NinePRequest.readlink fid) = Keeps-readlink fid
  Keeps-handle (NinePRequest.fsync fid) = Keeps-fsync fid
  Keeps-handle (NinePRequest.flush oldtag) = Keeps-pure _ tt

  answer-IsSafe :
      (r : Result (ℕ × NinePRequest)) (s : ServerState sys) → IsSafe s → IsSafe (answer r s).1
  unfolding answer
  answer-IsSafe (err e) s h = h
  answer-IsSafe (ok (tag, request)) s h = ((Keeps-handle request).at s h).0

-- Whatever bytes a client sends, and whatever the file system answers, the server goes from a state
-- in which every fid stands at a valid path and every attribute in writing is sound to such a state.
pub handle_frame-IsSafe :
    {sys : FileSystem} (frame : Bytes) (s : ServerState sys)
    → IsSafe s
    → IsSafe (handle_frame frame s).1
unfolding handle_frame
handle_frame-IsSafe frame s h = answer-IsSafe (decode_request frame) s h
