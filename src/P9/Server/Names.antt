-- ===== src/P9/Server/Names.antt =====
-- The handlers of `NinePServer` that write data and change directories.
use star.Base.{
  ℕ, ◌+◌, min, not, ◌&&◌, ◌==◌, ltb, leb, List, [], ◌∷◌, ◌++◌, Bytes, bit_and, bit_or, length,
  if◌then◌else◌,
}
use star.Core.Error.{Error, ErrorKind, Result, ok, err}
use star.Core.Mode
use star.Core.Mode.{DirEntry, from_perm, is_dir}
use star.Fs.{FileSystem}
use star.P9.Attr.{checked_join, join_path, dirent_type}
use star.P9.Dirents.{encode_dirents}
use star.P9.Wire.{u32_max, usize_max, try_into}
use star.P9.Response.{NinePResponse}
use star.P9.Xattr.{XattrWriteState, write_at}
use star.P9.Server.State.{
  FidHandle, FidState, Exec, ◌>>=◌, pure, fail, attempt, call, call_file, invalid, get_fid, set_fid,
  fid_path, when,
}
use star.P9.Server.Walk.{qid_for, lift, commit_xattr_if_ready}

-- `Err(Error::Kind(ErrorKind::NotSupported))` counts as success.
abbrev or_not_supported : Result (Unit {0}) → Result (Unit {0})
or_not_supported (err (Error.kind ErrorKind.not_supported)) = ok tt
or_not_supported r = r

module _ {sys : FileSystem} where
  -- The write state that an accepted write leaves is kept by the fid.
  unfoldable pub keep_write : ℕ → FidState sys.File → ℕ × XattrWriteState → Exec sys ℕ
  keep_write fid st (n, w) = do
    _ ← set_fid fid (record st { handle = FidHandle.xattr_write w })
    pure n

  unfoldable pub write_handle : ℕ → ℕ → Bytes → FidState sys.File → FidHandle sys.File → Exec sys ℕ
  write_handle fid offset content st (FidHandle.file f) =
      call_file fid st f (sys.file_write_at content offset)
  write_handle fid offset content st (FidHandle.xattr_write w) = do
    r ← lift (write_at w offset content)
    keep_write fid st r
  write_handle fid offset content st (FidHandle.xattr_read held) =
      fail (Error.kind ErrorKind.permission_denied)
  write_handle fid offset content st FidHandle.none = fail invalid

  unfoldable pub write : ℕ → ℕ → Bytes → Exec sys NinePResponse
  unfolding write_handle keep_write
  write fid offset content = do
    st ← get_fid fid
    n ← write_handle fid offset content st st.handle
    count ← lift (try_into u32_max n)
    pure (NinePResponse.write count)

  unfoldable pub mkdir : ℕ → Bytes → ℕ → Exec sys NinePResponse
  mkdir fid name mode = do
    parent ← fid_path fid
    path ← lift (checked_join parent name)
    _ ← call (sys.mkdir path (bit_or Mode.dir (from_perm (bit_and mode 0o777))))
    qid ← qid_for path
    pure (NinePResponse.mkdir qid)

  unfoldable pub link : ℕ → ℕ → Bytes → Exec sys NinePResponse
  link fid newdirfid name = do
    old ← fid_path fid
    parent ← fid_path newdirfid
    new ← lift (checked_join parent name)
    _ ← call (sys.link old new)
    pure NinePResponse.link

  -- The loop over the entries, from the one with this index.
  unfoldable pub readdir_loop : Bytes → ℕ → ℕ → ℕ → Bytes → List DirEntry → Exec sys Bytes
  readdir_loop path offset count index out [] = pure out
  readdir_loop path offset count index out (entry ∷ entries) =
      let cursor = index + 1 in
      let skip_entry = readdir_loop path offset count cursor out entries in
      let next =
        λ (encoded : Bytes). readdir_loop path offset count cursor (out ++ encoded) entries in
      if leb cursor offset then skip_entry else do
        qid ← qid_for (join_path path entry.name)
        encoded ← lift (
            encode_dirents (
              record {
                qid = qid;
                offset = cursor;
                typ = dirent_type (entry.metadata.mode);
                name = entry.name;
              }
              ∷ []))
        if ltb count (min (length out + length encoded) usize_max) then pure out else next encoded

  unfoldable pub readdir : ℕ → ℕ → ℕ → Exec sys NinePResponse
  unfolding readdir_loop
  readdir fid offset count = do
    path ← fid_path fid
    entries ← call (sys.read_dir path)
    out ← readdir_loop path offset count 0 [] entries
    pure (NinePResponse.readdir out)

  unfoldable pub rename_at : ℕ → Bytes → ℕ → Bytes → Exec sys NinePResponse
  rename_at olddirfid oldname newdirfid newname = do
    olddir ← fid_path olddirfid
    old ← lift (checked_join olddir oldname)
    newdir ← fid_path newdirfid
    new ← lift (checked_join newdir newname)
    _ ← call (sys.rename old new)
    pure NinePResponse.rename_at

  unfoldable pub unlink_at : ℕ → Bytes → ℕ → Exec sys NinePResponse
  unlink_at dirfid name flags = do
    parent ← fid_path dirfid
    path ← lift (checked_join parent name)
    meta ← call (sys.lstat path)
    let dir = is_dir meta.mode
    let rmdir = not (bit_and flags 0x200 == 0)
    _ ← when (dir && not rmdir) (fail (Error.kind ErrorKind.is_dir))
    _ ← when (not dir && rmdir) (fail (Error.kind ErrorKind.not_dir))
    _ ← when dir (do
      entries ← call (sys.read_dir path)
      when (not (length entries == 0)) (fail (Error.kind ErrorKind.not_empty)))
    _ ← call (sys.remove path)
    pure NinePResponse.unlink_at

  unfoldable pub symlink : ℕ → Bytes → Bytes → Exec sys NinePResponse
  symlink fid name target = do
    parent ← fid_path fid
    path ← lift (checked_join parent name)
    _ ← call (sys.symlink target path)
    qid ← qid_for path
    pure (NinePResponse.symlink qid)

  unfoldable pub readlink : ℕ → Exec sys NinePResponse
  readlink fid = do
    path ← fid_path fid
    target ← call (sys.readlink path)
    pure (NinePResponse.readlink target)

  unfoldable pub sync_handle : ℕ → FidState sys.File → FidHandle sys.File → Exec sys (Unit {0})
  sync_handle fid st (FidHandle.file f) = do
    r ← attempt (call_file fid st f sys.file_sync)
    lift (or_not_supported r)
  sync_handle fid st (FidHandle.xattr_write w) = do st' ← commit_xattr_if_ready st; set_fid fid st'
  sync_handle fid st (FidHandle.xattr_read content) = pure tt
  sync_handle fid st FidHandle.none = pure tt

  unfoldable pub fsync : ℕ → Exec sys NinePResponse
  unfolding sync_handle
  fsync fid = do st ← get_fid fid; _ ← sync_handle fid st st.handle; pure NinePResponse.fsync
