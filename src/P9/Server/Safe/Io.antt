-- ===== src/P9/Server/Safe/Io.antt =====
-- The requests that read attributes and data keep the server's state safe.
use star.Base.{ℕ, not, ◌&&◌, ◌==◌, Bytes}
use star.Core.Path.{is_nil}
use star.Core.Mode.{is_dir}
use star.Fs.{FileSystem}
use star.P9.Types.{SetAttr}
use star.P9.Xattr.Complete.{new-IsSound}
use star.P9.Server.State.{FidHandle, FidState}
use star.P9.Server.Io.{handle_stat, getattr, setattr, xattrwalk, xattrcreate, read_handle, read}
use star.P9.Server.Keeps.{
  IsGood, Keeps, Any, Keeps-pure, Keeps-fail, Keeps-if, Keeps-attempt, Keeps-bind, Keeps-call,
  Keeps-is_taken, Keeps-now, Keeps-get_fid, Keeps-set_fid, Keeps-call_file, Keeps-fid_path,
  Keeps-when,
}

module _ {sys : FileSystem} where
  Keeps-handle_stat :
      (fid : ℕ) (st : FidState sys.File) (h : FidHandle sys.File)
      → IsGood st
      → Keeps (handle_stat {sys = sys} fid st h) Any
  unfolding handle_stat
  Keeps-handle_stat fid st (FidHandle.file f) g = Keeps-call_file fid st f _ g
  Keeps-handle_stat fid st FidHandle.none g = Keeps-call _
  Keeps-handle_stat fid st (FidHandle.xattr_read content) g = Keeps-pure _ tt
  Keeps-handle_stat fid st (FidHandle.xattr_write w) g = Keeps-pure _ tt

  pub Keeps-getattr : (fid request_mask : ℕ) → Keeps (getattr {sys = sys} fid request_mask) Any
  unfolding getattr
  Keeps-getattr fid request_mask = Keeps-bind _ (Keeps-get_fid fid) λ st g.
      Keeps-bind _ (Keeps-handle_stat fid st st.handle g) λ meta _.
        Keeps-bind {Q = Any} _
          (Keeps-if (is_dir meta.mode)
            (Keeps-bind _ (Keeps-attempt (Keeps-call _)) λ r _. Keeps-pure _ tt) (Keeps-pure _ tt))
          λ entries _. Keeps-pure _ tt

  pub Keeps-setattr : (fid : ℕ) (attr : SetAttr) → Keeps (setattr {sys = sys} fid attr) Any
  unfolding setattr
  Keeps-setattr fid attr = Keeps-bind _ (Keeps-fid_path fid) λ path v.
      Keeps-bind _ (Keeps-when _ (Keeps-call _)) λ _ _.
        Keeps-bind _ (Keeps-when _ (Keeps-call _)) λ _ _.
          Keeps-bind _
            (Keeps-when _ (Keeps-bind _ (Keeps-call (sys.lstat path)) λ meta _. Keeps-call _))
            λ _ _.
              Keeps-bind _ (Keeps-when _ (Keeps-bind _ Keeps-now λ now _. Keeps-call _))
                λ _ _. Keeps-pure _ tt

  pub Keeps-xattrwalk :
      (fid newfid : ℕ) (name : Bytes) → Keeps (xattrwalk {sys = sys} fid newfid name) Any
  unfolding xattrwalk
  Keeps-xattrwalk fid newfid name = Keeps-bind _ (Keeps-is_taken newfid) λ taken _.
      Keeps-if (not (newfid == fid) && taken) (Keeps-fail _) (
        Keeps-bind _ (Keeps-get_fid fid) λ st g.
          Keeps-bind {Q = Any} _
            (Keeps-if (is_nil name) (Keeps-bind _ (Keeps-call _) λ names _. Keeps-pure _ tt)
              (Keeps-call _))
            λ content _.
              Keeps-bind _ (Keeps-set_fid newfid _ (record { valid = g.valid; sound = tt }))
                λ _ _. Keeps-pure _ tt)

  pub Keeps-xattrcreate :
      (fid : ℕ) (name : Bytes) (size flags : ℕ)
      → Keeps (xattrcreate {sys = sys} fid name size flags) Any
  unfolding xattrcreate
  Keeps-xattrcreate fid name size flags = Keeps-if (is_nil name) (Keeps-fail _) (
      Keeps-bind _ (Keeps-get_fid fid) λ st g.
        Keeps-bind _
          (Keeps-set_fid fid _ (record { valid = g.valid; sound = new-IsSound name flags size }))
          λ _ _. Keeps-pure _ tt)

  Keeps-read_handle :
      (fid offset count : ℕ) (st : FidState sys.File) (h : FidHandle sys.File)
      → IsGood st
      → Keeps (read_handle {sys = sys} fid offset count st h) Any
  unfolding read_handle
  Keeps-read_handle fid offset count st (FidHandle.file f) g = Keeps-call_file fid st f _ g
  Keeps-read_handle fid offset count st FidHandle.none g = Keeps-fail _
  Keeps-read_handle fid offset count st (FidHandle.xattr_read content) g = Keeps-pure _ tt
  Keeps-read_handle fid offset count st (FidHandle.xattr_write w) g = Keeps-fail _

  pub Keeps-read : (fid offset count : ℕ) → Keeps (read {sys = sys} fid offset count) Any
  unfolding read
  Keeps-read fid offset count = Keeps-bind _ (Keeps-get_fid fid) λ st g.
      Keeps-bind _ (Keeps-read_handle fid offset count st st.handle g) λ _ _. Keeps-pure _ tt
