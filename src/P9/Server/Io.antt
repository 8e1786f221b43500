-- ===== src/P9/Server/Io.antt =====
-- The handlers of `NinePServer` that read and write attributes, data and directories.
use star.Base.{
  ℕ, ◌+◌, ◌/◌, ◌%◌, ◌^◌, min, Bool, true, false, ◌||◌, not, ◌&&◌, ◌==◌, ltb, leb, List, [], ◌∷◌,
  ◌++◌, Bytes, bit_and, codes, length, take, drop, if◌then◌else◌,
}
use star.Core.Error.{Error, ErrorKind, Result, ok, err}
use star.Core.Path.{is_nil}
use star.Core.Mode
use star.Core.Mode.{Time, Metadata, DirEntry, from_perm, is_dir, file_metadata}
use star.Fs.{FileSystem}
use star.P9.Attr.{attr_with}
use star.P9.Types.{SetAttr}
use star.P9.Wire.{usize_max}
use star.P9.Response.{NinePResponse}
use star.P9.Xattr
use star.P9.Xattr.{XattrWriteState, write_at}
use star.P9.Server.State.{
  FidHandle, FidState, Exec, ◌>>=◌, pure, fail, attempt, call, call_file, invalid, get_fid, set_fid,
  is_taken, fid_path, when,
}

abbrev bit_set : ℕ → ℕ → Bool
bit_set valid mask = not (bit_and valid mask == 0)

-- `Duration::new(seconds, nanoseconds as u32)` behind `UNIX_EPOCH`.
abbrev time_of : ℕ → ℕ → Time
time_of seconds nanoseconds =
    let nanos = nanoseconds % 2 ^ 32 in
    record { secs = seconds + nanos / 1000000000; nanos = nanos % 1000000000 }

-- `names.sort()`, bytewise, and each name behind its predecessor with a zero byte.
bytes_le : Bytes → Bytes → Bool
bytes_le [] ys = true
bytes_le (x ∷ xs) [] = false
bytes_le (x ∷ xs) (y ∷ ys) = ltb x y || x == y && bytes_le xs ys

insert_sorted : Bytes → List Bytes → List Bytes
insert_sorted x [] = x ∷ []
insert_sorted x (y ∷ ys) =
    let rest = insert_sorted x ys in if bytes_le x y then x ∷ y ∷ ys else y ∷ rest

sort : List Bytes → List Bytes
sort [] = []
sort (x ∷ xs) = insert_sorted x (sort xs)

ended : List Bytes → Bytes
ended [] = []
ended (name ∷ names) = name ++ 0 ∷ ended names

unfoldable pub encode_xattr_names : List Bytes → Bytes
unfolding sort insert_sorted bytes_le ended
encode_xattr_names names = ended (sort names)

-- `fsys.read_dir(..).map(|entries| entries.len() as u64).unwrap_or(0)`
count_entries : Result (List DirEntry) → ℕ
count_entries (ok entries) = length entries
count_entries (err e) = 0

-- `data[start..start.saturating_add(count).min(data.len())]`, or nothing from the end on.
unfoldable pub slice : Bytes → ℕ → ℕ → Bytes
slice content start count =
    if leb (length content) start
    then []
    else (let end = min (min (start + count) usize_max) (length content) in
        drop start (take end content))

module _ {sys : FileSystem} where
  unfoldable pub handle_stat : ℕ → FidState sys.File → FidHandle sys.File → Exec sys Metadata
  handle_stat fid st (FidHandle.file f) = call_file fid st f sys.file_stat
  handle_stat fid st FidHandle.none = call (sys.lstat st.path)
  handle_stat fid st (FidHandle.xattr_read content) =
      pure (file_metadata (codes "xattr") 0o444 (length content))
  handle_stat fid st (FidHandle.xattr_write w) =
      pure (file_metadata (codes "xattr") 0o200 w.expected_size)

  unfoldable pub getattr : ℕ → ℕ → Exec sys NinePResponse
  unfolding handle_stat count_entries
  getattr fid request_mask = do
    st ← get_fid fid
    meta ← handle_stat fid st st.handle
    entries ←
        if is_dir meta.mode
        then (do r ← attempt (call (sys.read_dir st.path)); pure (count_entries r))
        else pure 0
    pure (NinePResponse.get_attr (attr_with st.path meta request_mask entries))

  unfoldable pub setattr : ℕ → SetAttr → Exec sys NinePResponse
  setattr fid attr = do
    path ← fid_path fid
    _ ← when (bit_set attr.valid 8) (call (sys.truncate path attr.size))
    _ ← when (bit_set attr.valid 1) (call (sys.chmod path (from_perm (bit_and attr.mode 0o777))))
    _ ← when (bit_set attr.valid 6) (do
      meta ← call (sys.lstat path)
      let uid = if bit_set attr.valid 2 then attr.uid else meta.uid
      let gid = if bit_set attr.valid 4 then attr.gid else meta.gid
      call (sys.chown path uid gid))
    _ ← when (bit_set attr.valid 32) (do
      now ← (λ s. (ok (sys.now s.fs), s))
      let given = time_of attr.mtime_seconds attr.mtime_nanoseconds
      call (sys.chtimes path (if bit_set attr.valid 256 then given else now)))
    pure NinePResponse.set_attr

  unfoldable pub xattrwalk : ℕ → ℕ → Bytes → Exec sys NinePResponse
  xattrwalk fid newfid name = do
    taken ← is_taken newfid
    if not (newfid == fid) && taken then fail invalid else do
      st ← get_fid fid
      content ←
          if is_nil name
          then (do names ← call (sys.list_xattrs st.path); pure (encode_xattr_names names))
          else call (sys.get_xattr st.path name)
      _ ←
          set_fid newfid
            (record { path = st.path; handle = FidHandle.xattr_read content; flags = Mode.rdonly })
      pure (NinePResponse.xattr_walk (length content))

  unfoldable pub xattrcreate : ℕ → Bytes → ℕ → ℕ → Exec sys NinePResponse
  xattrcreate fid name size flags = if is_nil name then fail invalid else do
    st ← get_fid fid
    _ ← set_fid fid (record st {
      handle = FidHandle.xattr_write (Xattr.new name flags size);
      flags = Mode.wronly;
    })
    pure NinePResponse.xattr_create

  unfoldable pub read_handle : ℕ → ℕ → ℕ → FidState sys.File → FidHandle sys.File → Exec sys Bytes
  read_handle fid offset count st (FidHandle.file f) =
      call_file fid st f (sys.file_read_at offset count)
  read_handle fid offset count st (FidHandle.xattr_read content) = pure (slice content offset count)
  read_handle fid offset count st (FidHandle.xattr_write w) =
      fail (Error.kind ErrorKind.permission_denied)
  read_handle fid offset count st FidHandle.none = fail invalid

  unfoldable pub read : ℕ → ℕ → ℕ → Exec sys NinePResponse
  unfolding read_handle
  read fid offset count = do
    st ← get_fid fid
    content ← read_handle fid offset count st st.handle
    pure (NinePResponse.read content)
