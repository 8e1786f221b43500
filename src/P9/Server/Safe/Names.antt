-- ===== src/P9/Server/Safe/Names.antt =====
-- The requests that write data and change directories keep the server's state safe.
use star.Base.{ℕ, ◌+◌, List, [], ◌∷◌, ◌++◌, Bytes, leb}
use star.Core.Mode.{DirEntry}
use star.Fs.{FileSystem}
use star.P9.Attr.{checked_join}
use star.P9.Wire.{try_into, u32_max}
use star.P9.Xattr.{XattrWriteState, write_at}
use star.P9.Xattr.Complete.{IsSound, write_at-Wrote}
use star.P9.Server.State.{◌>>=◌, fid_path, FidHandle, FidState, Exec}
use star.P9.Server.Walk.{lift}
use star.P9.Server.Names.{
  keep_write, write_handle, write, mkdir, link, readdir_loop, readdir, rename_at, unlink_at,
  symlink, readlink, sync_handle, fsync,
}
use star.P9.Server.Keeps.{
  IsGood, SoundHandle, Keeps, Any, Keeps-pure, Keeps-fail, Keeps-if, Keeps-Any, Keeps-attempt,
  Keeps-bind, Keeps-call, Keeps-lift, Keeps-get_fid, Keeps-set_fid, Keeps-call_file, Keeps-fid_path,
  Keeps-when,
}
use star.P9.Server.Safe.Fids.{Keeps-qid_for, Keeps-commit_xattr_if_ready}

module _ {sys : FileSystem} where
  Keeps-keep_write :
      (fid : ℕ) (st : FidState sys.File) (p : ℕ × XattrWriteState)
      → IsGood st
      → IsSound p.1
      → Keeps (keep_write {sys = sys} fid st p) Any
  unfolding keep_write
  Keeps-keep_write fid st (n, w) g s =
      Keeps-bind _ (Keeps-set_fid fid _ (record { valid = g.valid; sound = s }))
        λ _ _. Keeps-pure _ tt

  Keeps-write_handle :
      (fid offset : ℕ) (content : Bytes) (st : FidState sys.File) (h : FidHandle sys.File)
      → IsGood st
      → SoundHandle h
      → Keeps (write_handle {sys = sys} fid offset content st h) Any
  unfolding write_handle
  Keeps-write_handle fid offset content st (FidHandle.file f) g s = Keeps-call_file fid st f _ g
  Keeps-write_handle fid offset content st FidHandle.none g s = Keeps-fail _
  Keeps-write_handle fid offset content st (FidHandle.xattr_read held) g s = Keeps-fail _
  Keeps-write_handle fid offset content st (FidHandle.xattr_write w) g s =
      Keeps-bind _ (Keeps-lift (write_at w offset content))
        λ p e. Keeps-keep_write fid st p g (write_at-Wrote w offset content s e).0

  pub Keeps-write :
      (fid offset : ℕ) (content : Bytes) → Keeps (write {sys = sys} fid offset content) Any
  unfolding write
  Keeps-write fid offset content = Keeps-bind _ (Keeps-get_fid fid) λ st g.
      Keeps-bind _ (Keeps-write_handle fid offset content st st.handle g g.sound)
        λ n _. Keeps-bind _ (Keeps-lift (try_into u32_max n)) λ count _. Keeps-pure _ tt

  -- A step on a name in the directory of a fid.
  Keeps-child :
      {B : Type 0} (fid : ℕ) (name : Bytes) (f : Bytes → Exec sys B)
      → ((path : Bytes) → Keeps (f path) Any)
      → Keeps (fid_path fid >>= λ parent. lift (checked_join parent name) >>= f) Any
  Keeps-child fid name f k =
      Keeps-bind _ (Keeps-fid_path fid)
        λ parent v. Keeps-bind f (Keeps-lift (checked_join parent name)) λ path _. k path

  pub Keeps-mkdir :
      (fid : ℕ) (name : Bytes) (mode : ℕ) → Keeps (mkdir {sys = sys} fid name mode) Any
  unfolding mkdir
  Keeps-mkdir fid name mode = Keeps-child fid name _ λ path.
      Keeps-bind _ (Keeps-call _) λ _ _. Keeps-bind _ (Keeps-qid_for path) λ qid _. Keeps-pure _ tt

  pub Keeps-link :
      (fid newdirfid : ℕ) (name : Bytes) → Keeps (link {sys = sys} fid newdirfid name) Any
  unfolding link
  Keeps-link fid newdirfid name = Keeps-bind _ (Keeps-fid_path fid) λ old _.
      Keeps-child newdirfid name _ λ new. Keeps-bind _ (Keeps-call _) λ _ _. Keeps-pure _ tt

  Keeps-readdir_loop :
      (path : Bytes) (offset count index : ℕ) (out : Bytes) (entries : List DirEntry)
      → Keeps (readdir_loop {sys = sys} path offset count index out entries) Any
  unfolding readdir_loop
  Keeps-readdir_loop path offset count index out [] = Keeps-pure _ tt
  Keeps-readdir_loop path offset count index out (entry ∷ entries) =
      Keeps-if (leb (index + 1) offset)
        (Keeps-readdir_loop path offset count (index + 1) out entries)
        (Keeps-bind _ (Keeps-qid_for _) λ qid _. Keeps-bind _ (Keeps-lift _) λ encoded _.
          Keeps-if _ (Keeps-pure _ tt)
            (Keeps-readdir_loop path offset count (index + 1) (out ++ encoded) entries))

  pub Keeps-readdir : (fid offset count : ℕ) → Keeps (readdir {sys = sys} fid offset count) Any
  unfolding readdir
  Keeps-readdir fid offset count = Keeps-bind _ (Keeps-fid_path fid) λ path _.
      Keeps-bind _ (Keeps-call _) λ entries _.
        Keeps-bind _ (Keeps-readdir_loop path offset count 0 [] entries) λ _ _. Keeps-pure _ tt

  pub Keeps-rename_at :
      (olddirfid : ℕ) (oldname : Bytes) (newdirfid : ℕ) (newname : Bytes)
      → Keeps (rename_at {sys = sys} olddirfid oldname newdirfid newname) Any
  unfolding rename_at
  Keeps-rename_at olddirfid oldname newdirfid newname = Keeps-child olddirfid oldname _ λ old.
      Keeps-child newdirfid newname _ λ new. Keeps-bind _ (Keeps-call _) λ _ _. Keeps-pure _ tt

  pub Keeps-unlink_at :
      (dirfid : ℕ) (name : Bytes) (flags : ℕ) → Keeps (unlink_at {sys = sys} dirfid name flags) Any
  unfolding unlink_at
  Keeps-unlink_at dirfid name flags = Keeps-child dirfid name _ λ path.
      Keeps-bind _ (Keeps-call _) λ meta _. Keeps-bind _ (Keeps-when _ (Keeps-fail _)) λ _ _.
        Keeps-bind _ (Keeps-when _ (Keeps-fail _)) λ _ _.
          Keeps-bind _
            (Keeps-when _ (Keeps-bind _ (Keeps-call _) λ entries _. Keeps-when _ (Keeps-fail _)))
            λ _ _. Keeps-bind _ (Keeps-call _) λ _ _. Keeps-pure _ tt

  pub Keeps-symlink :
      (fid : ℕ) (name target : Bytes) → Keeps (symlink {sys = sys} fid name target) Any
  unfolding symlink
  Keeps-symlink fid name target = Keeps-child fid name _ λ path.
      Keeps-bind _ (Keeps-call _) λ _ _. Keeps-bind _ (Keeps-qid_for path) λ qid _. Keeps-pure _ tt

  pub Keeps-readlink : (fid : ℕ) → Keeps (readlink {sys = sys} fid) Any
  unfolding readlink
  Keeps-readlink fid =
      Keeps-bind _ (Keeps-fid_path fid)
        λ path _. Keeps-bind _ (Keeps-call _) λ target _. Keeps-pure _ tt

  Keeps-sync_handle :
      (fid : ℕ) (st : FidState sys.File) (h : FidHandle sys.File)
      → IsGood st
      → Keeps (sync_handle {sys = sys} fid st h) Any
  unfolding sync_handle
  Keeps-sync_handle fid st (FidHandle.file f) g =
      Keeps-bind _ (Keeps-attempt (Keeps-call_file fid st f _ g)) λ r _. Keeps-Any (Keeps-lift _)
  Keeps-sync_handle fid st FidHandle.none g = Keeps-pure tt tt
  Keeps-sync_handle fid st (FidHandle.xattr_read content) g = Keeps-pure tt tt
  Keeps-sync_handle fid st (FidHandle.xattr_write w) g =
      Keeps-bind _ (Keeps-commit_xattr_if_ready st g) λ st' g'. Keeps-set_fid fid st' g'

  pub Keeps-fsync : (fid : ℕ) → Keeps (fsync {sys = sys} fid) Any
  unfolding fsync
  Keeps-fsync fid =
      Keeps-bind _ (Keeps-get_fid fid)
        λ st g. Keeps-bind _ (Keeps-sync_handle fid st st.handle g) λ _ _. Keeps-pure _ tt
