-- ===== src/P9/Server/Walk.antt =====
-- `attach`, `walk`, `lopen`, `lcreate`, `clunk` and `remove` of `NinePServer`: how fids come and go.
use star.Base.{
  ℕ, true, ◌||◌, not, ◌&&◌, ◌==◌, List, [], ◌∷◌, ◌++◌, Bytes, bytes_eq, bit_and, bit_or,
  if◌then◌else◌,
}
use star.Core.Error.{Error, Result, ok, err}
use star.Core.Path.{dot, is_nil}
use star.Core.Mode
use star.Core.Mode.{from_perm}
use star.Fs.{FileSystem}
use star.P9.Attr.{qid_from_meta, walk_join, checked_join, contains_slash, open_flags_from_9p}
use star.P9.Types.{Qid}
use star.P9.Response.{NinePResponse}
use star.P9.Xattr.{XattrWriteState, is_complete}
use star.P9.Server.State.{
  FidHandle, FidState, Exec, unopened, ◌>>=◌, pure, fail, attempt, call, invalid, get_fid, set_fid,
  take_fid, is_taken, fid_path,
}

module _ {sys : FileSystem} where
  unfoldable pub qid_for : Bytes → Exec sys Qid
  qid_for path = do meta ← call (sys.lstat path); pure (qid_from_meta path meta)

  -- `checked_join(..)?`
  unfoldable pub lift : {A : Type 0} → Result A → Exec sys A
  lift (ok a) = pure a
  lift (err e) = fail e

  unfoldable pub attach : ℕ → Exec sys NinePResponse
  attach fid = do qid ← qid_for dot; _ ← set_fid fid (unopened dot); pure (NinePResponse.attach qid)

  -- A name that is not there: an error for the first one, and the end of the walk for a later one.
  unfoldable pub stop_walk : Bytes → List Qid → Error → Exec sys (Bytes × List Qid)
  stop_walk path [] e = fail e
  stop_walk path (qid ∷ qids) e = pure (path, qid ∷ qids)

  -- The loop over the names: the path that was reached, and the qids on the way.
  unfoldable pub walk_loop : Bytes → List Qid → List Bytes → Exec sys (Bytes × List Qid)
  walk_loop path qids [] = pure (path, qids)
  walk_loop path qids (name ∷ names) =
      let next_path = walk_join path name in
      let go_on = λ (qid : Qid). walk_loop next_path (qids ++ qid ∷ []) names in
      if contains_slash name || is_nil name then fail invalid else do
        r ← attempt (qid_for next_path)
        elim r [ ok qid ↦ go_on qid | err e ↦ stop_walk path qids e ]

  unfoldable pub walk : ℕ → ℕ → List Bytes → Exec sys NinePResponse
  unfolding walk_loop stop_walk
  walk fid newfid names = do
    taken ← is_taken newfid
    if not (newfid == fid) && taken then fail invalid else do
      st ← get_fid fid
      (path, qids) ← walk_loop st.path [] names
      _ ← set_fid newfid (unopened path)
      pure (NinePResponse.walk qids)

  unfoldable pub lopen : ℕ → ℕ → Exec sys NinePResponse
  lopen fid flags = do
    path ← fid_path fid
    f ← call (sys.open_file path (open_flags_from_9p flags) (from_perm 0o666))
    qid ← qid_for path
    st ← get_fid fid
    _ ← set_fid fid (record st { handle = FidHandle.file f; flags = flags })
    pure (NinePResponse.lopen qid 0)

  unfoldable pub lcreate : ℕ → Bytes → ℕ → ℕ → Exec sys NinePResponse
  lcreate fid name flags mode = do
    parent ← fid_path fid
    path ← lift (checked_join parent name)
    let perm = from_perm (bit_and mode 0o777)
    f ← call (sys.open_file path (bit_or (open_flags_from_9p flags) Mode.create) perm)
    qid ← qid_for path
    _ ← get_fid fid
    _ ← set_fid fid (record { path = path; handle = FidHandle.file f; flags = flags })
    pure (NinePResponse.lcreate qid 0)

  -- `commit_xattr_if_ready`: the fid's next state.
  unfoldable pub commit_write : FidState sys.File → XattrWriteState → Exec sys (FidState sys.File)
  commit_write st w =
      if w.committed then pure st else if not (is_complete w) then fail invalid else do
        _ ← call (sys.set_xattr st.path w.name w.content)
        pure (record st { handle = FidHandle.xattr_write (record w { committed = true }) })

  unfoldable pub commit_handle :
      FidState sys.File → FidHandle sys.File → Exec sys (FidState sys.File)
  commit_handle st FidHandle.none = pure st
  commit_handle st (FidHandle.file f) = pure st
  commit_handle st (FidHandle.xattr_read content) = pure st
  commit_handle st (FidHandle.xattr_write w) = commit_write st w

  unfoldable pub commit_xattr_if_ready : FidState sys.File → Exec sys (FidState sys.File)
  unfolding commit_handle commit_write
  commit_xattr_if_ready st = commit_handle st st.handle

  -- `file.close()`, of a fid that is gone.
  unfoldable pub close_handle : FidHandle sys.File → Exec sys (Unit {0})
  close_handle (FidHandle.file f) = call (λ fs. let (r, _, fs') = sys.file_close f fs in (r, fs'))
  close_handle _ = pure tt

  unfoldable pub clunk : ℕ → Exec sys NinePResponse
  clunk fid = do
    st ← take_fid fid
    st' ← commit_xattr_if_ready st
    _ ← close_handle st'.handle
    pure NinePResponse.clunk

  unfoldable pub remove : ℕ → Exec sys NinePResponse
  remove fid = do
    st ← take_fid fid
    if bytes_eq st.path dot then fail invalid else do
      _ ← attempt (close_handle st.handle)
      _ ← call (sys.remove st.path)
      pure NinePResponse.remove
