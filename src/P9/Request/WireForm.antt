-- ===== src/P9/Request/WireForm.antt =====
-- The wire form of each request, field by field, and when its encoder accepts it.
use star.Base.{ℕ, ◌≡◌, refl, ◌++◌, append_assoc, Bytes, All}
use star.Core.Error.{ok, >>=-eq_ok}
use star.P9.Wire.{le_bytes, put_u16, put_u32, put_u64}
use star.P9.Msg.{
  tversion, tattach, twalk, tlopen, tlcreate, tgetattr, tsetattr, txattrwalk, txattrcreate, tread,
  twrite, tclunk, tremove, tmkdir, tlink, treaddir, trenameat, tunlinkat, tsymlink, treadlink,
  tfsync, tflush,
}
use star.P9.Types.Reads.{IsU16, IsU32, IsU64, IsText, IsSetAttr, wire_setattr, encode_setattr-wire}
use star.P9.Types.Counted.{
  wire_string, wire_data, wire_names, Fits16, Fits32, put_string-Fits, put_counted_data-Fits,
  put_names-Fits, Fits-put_string, Fits-put_counted_data, Fits-put_names,
}
use star.P9.Request.{
  NinePRequest, version, attach, walk, lopen, lcreate, get_attr, set_attr, xattr_walk, xattr_create,
  read, write, clunk, remove, mkdir, link, readdir, rename_at, unlink_at, symlink, readlink, fsync,
  flush, request_body,
}

-- The byte of the type.
abbrev pub request_type : NinePRequest → ℕ
request_type (version _ _) = tversion
request_type (attach _ _ _ _ _) = tattach
request_type (walk _ _ _) = twalk
request_type (lopen _ _) = tlopen
request_type (lcreate _ _ _ _ _) = tlcreate
request_type (get_attr _ _) = tgetattr
request_type (set_attr _ _) = tsetattr
request_type (xattr_walk _ _ _) = txattrwalk
request_type (xattr_create _ _ _ _) = txattrcreate
request_type (read _ _ _) = tread
request_type (write _ _ _) = twrite
request_type (clunk _) = tclunk
request_type (remove _) = tremove
request_type (mkdir _ _ _ _) = tmkdir
request_type (link _ _ _) = tlink
request_type (readdir _ _ _) = treaddir
request_type (rename_at _ _ _ _) = trenameat
request_type (unlink_at _ _ _) = tunlinkat
request_type (symlink _ _ _ _) = tsymlink
request_type (readlink _) = treadlink
request_type (fsync _) = tfsync
request_type (flush _) = tflush

abbrev pub request_wire : NinePRequest → Bytes
request_wire (version msize ver) = le_bytes 4 msize ++ (wire_string ver)
request_wire (attach fid afid uname aname n_uname) =
    le_bytes 4 fid
    ++ (le_bytes 4 afid ++ (wire_string uname ++ (wire_string aname ++ (le_bytes 4 n_uname))))
request_wire (walk fid newfid names) = le_bytes 4 fid ++ (le_bytes 4 newfid ++ (wire_names names))
request_wire (lopen fid flags) = le_bytes 4 fid ++ (le_bytes 4 flags)
request_wire (lcreate fid name flags mode gid) =
    le_bytes 4 fid
    ++ (wire_string name ++ (le_bytes 4 flags ++ (le_bytes 4 mode ++ (le_bytes 4 gid))))
request_wire (get_attr fid request_mask) = le_bytes 4 fid ++ (le_bytes 8 request_mask)
request_wire (set_attr fid attr) = le_bytes 4 fid ++ (wire_setattr attr)
request_wire (xattr_walk fid newfid name) =
    le_bytes 4 fid ++ (le_bytes 4 newfid ++ (wire_string name))
request_wire (xattr_create fid name size flags) =
    le_bytes 4 fid ++ (wire_string name ++ (le_bytes 8 size ++ (le_bytes 4 flags)))
request_wire (read fid offset count) = le_bytes 4 fid ++ (le_bytes 8 offset ++ (le_bytes 4 count))
request_wire (write fid offset content) =
    le_bytes 4 fid ++ (le_bytes 8 offset ++ (wire_data content))
request_wire (clunk fid) = le_bytes 4 fid
request_wire (remove fid) = le_bytes 4 fid
request_wire (mkdir fid name mode gid) =
    le_bytes 4 fid ++ (wire_string name ++ (le_bytes 4 mode ++ (le_bytes 4 gid)))
request_wire (link fid newdirfid name) =
    le_bytes 4 fid ++ (le_bytes 4 newdirfid ++ (wire_string name))
request_wire (readdir fid offset count) =
    le_bytes 4 fid ++ (le_bytes 8 offset ++ (le_bytes 4 count))
request_wire (rename_at olddirfid oldname newdirfid newname) =
    le_bytes 4 olddirfid ++ (wire_string oldname ++ (le_bytes 4 newdirfid ++ (wire_string newname)))
request_wire (unlink_at dirfid name flags) =
    le_bytes 4 dirfid ++ (wire_string name ++ (le_bytes 4 flags))
request_wire (symlink fid name target gid) =
    le_bytes 4 fid ++ (wire_string name ++ (wire_string target ++ (le_bytes 4 gid)))
request_wire (readlink fid) = le_bytes 4 fid
request_wire (fsync fid) = le_bytes 4 fid
request_wire (flush oldtag) = le_bytes 2 oldtag

-- The fields are values of their machine types.
abbrev pub IsTyped : NinePRequest → Type 0
IsTyped (version msize ver) = IsU32 msize × IsText ver
IsTyped (attach fid afid uname aname n_uname) =
    IsU32 fid × IsU32 afid × IsText uname × IsText aname × IsU32 n_uname
IsTyped (walk fid newfid names) = IsU32 fid × IsU32 newfid × All IsText names
IsTyped (lopen fid flags) = IsU32 fid × IsU32 flags
IsTyped (lcreate fid name flags mode gid) =
    IsU32 fid × IsText name × IsU32 flags × IsU32 mode × IsU32 gid
IsTyped (get_attr fid request_mask) = IsU32 fid × IsU64 request_mask
IsTyped (set_attr fid attr) = IsU32 fid × IsSetAttr attr
IsTyped (xattr_walk fid newfid name) = IsU32 fid × IsU32 newfid × IsText name
IsTyped (xattr_create fid name size flags) = IsU32 fid × IsText name × IsU64 size × IsU32 flags
IsTyped (read fid offset count) = IsU32 fid × IsU64 offset × IsU32 count
IsTyped (write fid offset _) = IsU32 fid × IsU64 offset
IsTyped (clunk fid) = IsU32 fid
IsTyped (remove fid) = IsU32 fid
IsTyped (mkdir fid name mode gid) = IsU32 fid × IsText name × IsU32 mode × IsU32 gid
IsTyped (link fid newdirfid name) = IsU32 fid × IsU32 newdirfid × IsText name
IsTyped (readdir fid offset count) = IsU32 fid × IsU64 offset × IsU32 count
IsTyped (rename_at olddirfid oldname newdirfid newname) =
    IsU32 olddirfid × IsText oldname × IsU32 newdirfid × IsText newname
IsTyped (unlink_at dirfid name flags) = IsU32 dirfid × IsText name × IsU32 flags
IsTyped (symlink fid name target gid) = IsU32 fid × IsText name × IsText target × IsU32 gid
IsTyped (readlink fid) = IsU32 fid
IsTyped (fsync fid) = IsU32 fid
IsTyped (flush oldtag) = IsU16 oldtag

-- The lengths fit their count fields.
abbrev pub Fits : NinePRequest → Type 0
Fits (version _ ver) = Fits16 ver
Fits (attach _ _ uname aname _) = Fits16 uname × Fits16 aname
Fits (walk _ _ names) = Fits16 names × All Fits16 names
Fits (lopen _ _) = Unit
Fits (lcreate _ name _ _ _) = Fits16 name
Fits (get_attr _ _) = Unit
Fits (set_attr _ _) = Unit
Fits (xattr_walk _ _ name) = Fits16 name
Fits (xattr_create _ name _ _) = Fits16 name
Fits (read _ _ _) = Unit
Fits (write _ _ content) = Fits32 content
Fits (clunk _) = Unit
Fits (remove _) = Unit
Fits (mkdir _ name _ _) = Fits16 name
Fits (link _ _ name) = Fits16 name
Fits (readdir _ _ _) = Unit
Fits (rename_at _ oldname _ newname) = Fits16 oldname × Fits16 newname
Fits (unlink_at _ name _) = Fits16 name
Fits (symlink _ name target _) = Fits16 name × Fits16 target
Fits (readlink _) = Unit
Fits (fsync _) = Unit
Fits (flush _) = Unit

-- A request whose lengths fit is written field by field.
pub request_body-Fits :
    (m : NinePRequest) → Fits m → request_body m ≡ ok (request_type m, request_wire m)
unfolding request_body put_u16 put_u32 put_u64
request_body-Fits (version msize ver) h = rw (put_string-Fits _ ver h) (simp append_assoc)
request_body-Fits (attach fid afid uname aname n_uname) h =
    rw (put_string-Fits _ uname h.0, put_string-Fits _ aname h.1) (simp append_assoc)
request_body-Fits (walk fid newfid names) h =
    rw (put_names-Fits _ names h.0 h.1) (simp append_assoc)
request_body-Fits (lopen fid flags) h = simp (append_assoc)
request_body-Fits (lcreate fid name flags mode gid) h =
    rw (put_string-Fits _ name h) (simp append_assoc)
request_body-Fits (get_attr fid request_mask) h = simp (append_assoc)
request_body-Fits (set_attr fid attr) h = simp (append_assoc, encode_setattr-wire)
request_body-Fits (xattr_walk fid newfid name) h = rw (put_string-Fits _ name h) (simp append_assoc)
request_body-Fits (xattr_create fid name size flags) h =
    rw (put_string-Fits _ name h) (simp append_assoc)
request_body-Fits (read fid offset count) h = simp (append_assoc)
request_body-Fits (write fid offset content) h =
    rw (put_counted_data-Fits _ content h) (simp append_assoc)
request_body-Fits (clunk fid) h = refl
request_body-Fits (remove fid) h = refl
request_body-Fits (mkdir fid name mode gid) h = rw (put_string-Fits _ name h) (simp append_assoc)
request_body-Fits (link fid newdirfid name) h = rw (put_string-Fits _ name h) (simp append_assoc)
request_body-Fits (readdir fid offset count) h = simp (append_assoc)
request_body-Fits (rename_at olddirfid oldname newdirfid newname) h =
    rw (put_string-Fits _ oldname h.0, put_string-Fits _ newname h.1) (simp append_assoc)
request_body-Fits (unlink_at dirfid name flags) h =
    rw (put_string-Fits _ name h) (simp append_assoc)
request_body-Fits (symlink fid name target gid) h =
    rw (put_string-Fits _ name h.0, put_string-Fits _ target h.1) (simp append_assoc)
request_body-Fits (readlink fid) h = refl
request_body-Fits (fsync fid) h = refl
request_body-Fits (flush oldtag) h = refl

-- The encoder accepts no other request.
pub Fits-request_body : (m : NinePRequest) {p : ℕ × Bytes} → request_body m ≡ ok p → Fits m
unfolding request_body
Fits-request_body (version _ ver) h = Fits-put_string _ ver (>>=-eq_ok _ _ h).1
Fits-request_body (attach _ _ uname aname _) h =
    let (_, e, k) = >>=-eq_ok _ _ h in
    (Fits-put_string _ uname e, Fits-put_string _ aname (>>=-eq_ok _ _ k).1)
Fits-request_body (walk _ _ names) h = Fits-put_names _ names (>>=-eq_ok _ _ h).1
Fits-request_body (lopen _ _) h = tt
Fits-request_body (lcreate _ name _ _ _) h = Fits-put_string _ name (>>=-eq_ok _ _ h).1
Fits-request_body (get_attr _ _) h = tt
Fits-request_body (set_attr _ _) h = tt
Fits-request_body (xattr_walk _ _ name) h = Fits-put_string _ name (>>=-eq_ok _ _ h).1
Fits-request_body (xattr_create _ name _ _) h = Fits-put_string _ name (>>=-eq_ok _ _ h).1
Fits-request_body (read _ _ _) h = tt
Fits-request_body (write _ _ content) h = Fits-put_counted_data _ content (>>=-eq_ok _ _ h).1
Fits-request_body (clunk _) h = tt
Fits-request_body (remove _) h = tt
Fits-request_body (mkdir _ name _ _) h = Fits-put_string _ name (>>=-eq_ok _ _ h).1
Fits-request_body (link _ _ name) h = Fits-put_string _ name (>>=-eq_ok _ _ h).1
Fits-request_body (readdir _ _ _) h = tt
Fits-request_body (rename_at _ oldname _ newname) h =
    let (_, e, k) = >>=-eq_ok _ _ h in
    (Fits-put_string _ oldname e, Fits-put_string _ newname (>>=-eq_ok _ _ k).1)
Fits-request_body (unlink_at _ name _) h = Fits-put_string _ name (>>=-eq_ok _ _ h).1
Fits-request_body (symlink _ name target _) h =
    let (_, e, k) = >>=-eq_ok _ _ h in
    (Fits-put_string _ name e, Fits-put_string _ target (>>=-eq_ok _ _ k).1)
Fits-request_body (readlink _) h = tt
Fits-request_body (fsync _) h = tt
Fits-request_body (flush _) h = tt
