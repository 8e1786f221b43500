-- ===== src/P9/Response/WireForm.antt =====
-- The wire form of each response, field by field, and when its encoder accepts it.
use star.Base.{ℕ, ◌≡◌, refl, [], ◌++◌, append_assoc, Bytes, All}
use star.Core.Error.{ok, >>=-eq_ok}
use star.P9.Wire.{le_bytes, put_u16, put_u32, put_u64}
use star.P9.Msg.{
  rlerror, rversion, rattach, rwalk, rlopen, rlcreate, rgetattr, rsetattr, rxattrwalk, rxattrcreate,
  rread, rwrite, rclunk, rremove, rmkdir, rlink, rreaddir, rrenameat, runlinkat, rsymlink,
  rreadlink, rfsync, rflush,
}
use star.P9.Types.Reads.{
  IsU32, IsU64, IsText, IsQid, IsAttr, wire_qid, wire_attr, encode_qid-wire, encode_attr-wire,
}
use star.P9.Types.Counted.{
  wire_string, wire_data, wire_qids, Fits16, Fits32, put_string-Fits, put_counted_data-Fits,
  put_qids-Fits, Fits-put_string, Fits-put_counted_data, Fits-put_qids,
}
use star.P9.Response.{
  NinePResponse, lerror, version, attach, walk, lopen, lcreate, get_attr, set_attr, xattr_walk,
  xattr_create, read, write, clunk, remove, mkdir, link, readdir, rename_at, unlink_at, symlink,
  readlink, fsync, flush, response_body,
}

-- The byte of the type.
abbrev pub response_type : NinePResponse → ℕ
response_type (lerror _) = rlerror
response_type (version _ _) = rversion
response_type (attach _) = rattach
response_type (walk _) = rwalk
response_type (lopen _ _) = rlopen
response_type (lcreate _ _) = rlcreate
response_type (get_attr _) = rgetattr
response_type set_attr = rsetattr
response_type (xattr_walk _) = rxattrwalk
response_type xattr_create = rxattrcreate
response_type (read _) = rread
response_type (write _) = rwrite
response_type clunk = rclunk
response_type remove = rremove
response_type (mkdir _) = rmkdir
response_type link = rlink
response_type (readdir _) = rreaddir
response_type rename_at = rrenameat
response_type unlink_at = runlinkat
response_type (symlink _) = rsymlink
response_type (readlink _) = rreadlink
response_type fsync = rfsync
response_type flush = rflush

abbrev pub response_wire : NinePResponse → Bytes
response_wire (lerror ecode) = le_bytes 4 ecode
response_wire (version msize ver) = le_bytes 4 msize ++ (wire_string ver)
response_wire (attach qid) = wire_qid qid
response_wire (walk qids) = wire_qids qids
response_wire (lopen qid iounit) = wire_qid qid ++ (le_bytes 4 iounit)
response_wire (lcreate qid iounit) = wire_qid qid ++ (le_bytes 4 iounit)
response_wire (get_attr attr) = wire_attr attr
response_wire set_attr = []
response_wire (xattr_walk size) = le_bytes 8 size
response_wire xattr_create = []
response_wire (read content) = wire_data content
response_wire (write count) = le_bytes 4 count
response_wire clunk = []
response_wire remove = []
response_wire (mkdir qid) = wire_qid qid
response_wire link = []
response_wire (readdir content) = wire_data content
response_wire rename_at = []
response_wire unlink_at = []
response_wire (symlink qid) = wire_qid qid
response_wire (readlink target) = wire_string target
response_wire fsync = []
response_wire flush = []

-- The fields are values of their machine types.
abbrev pub IsTyped : NinePResponse → Type 0
IsTyped (lerror ecode) = IsU32 ecode
IsTyped (version msize ver) = IsU32 msize × IsText ver
IsTyped (attach qid) = IsQid qid
IsTyped (walk qids) = All IsQid qids
IsTyped (lopen qid iounit) = IsQid qid × IsU32 iounit
IsTyped (lcreate qid iounit) = IsQid qid × IsU32 iounit
IsTyped (get_attr attr) = IsAttr attr
IsTyped set_attr = Unit
IsTyped (xattr_walk size) = IsU64 size
IsTyped xattr_create = Unit
IsTyped (read _) = Unit
IsTyped (write count) = IsU32 count
IsTyped clunk = Unit
IsTyped remove = Unit
IsTyped (mkdir qid) = IsQid qid
IsTyped link = Unit
IsTyped (readdir _) = Unit
IsTyped rename_at = Unit
IsTyped unlink_at = Unit
IsTyped (symlink qid) = IsQid qid
IsTyped (readlink target) = IsText target
IsTyped fsync = Unit
IsTyped flush = Unit

-- The lengths fit their count fields.
abbrev pub Fits : NinePResponse → Type 0
Fits (lerror _) = Unit
Fits (version _ ver) = Fits16 ver
Fits (attach _) = Unit
Fits (walk qids) = Fits16 qids
Fits (lopen _ _) = Unit
Fits (lcreate _ _) = Unit
Fits (get_attr _) = Unit
Fits set_attr = Unit
Fits (xattr_walk _) = Unit
Fits xattr_create = Unit
Fits (read content) = Fits32 content
Fits (write _) = Unit
Fits clunk = Unit
Fits remove = Unit
Fits (mkdir _) = Unit
Fits link = Unit
Fits (readdir content) = Fits32 content
Fits rename_at = Unit
Fits unlink_at = Unit
Fits (symlink _) = Unit
Fits (readlink target) = Fits16 target
Fits fsync = Unit
Fits flush = Unit

-- A response whose lengths fit is written field by field.
pub response_body-Fits :
    (m : NinePResponse) → Fits m → response_body m ≡ ok (response_type m, response_wire m)
unfolding response_body put_u16 put_u32 put_u64
response_body-Fits (lerror ecode) h = refl
response_body-Fits (version msize ver) h = rw (put_string-Fits _ ver h) (simp append_assoc)
response_body-Fits (attach qid) h = simp (encode_qid-wire)
response_body-Fits (walk qids) h = rw (put_qids-Fits _ qids h)
response_body-Fits (lopen qid iounit) h = simp (append_assoc, encode_qid-wire)
response_body-Fits (lcreate qid iounit) h = simp (append_assoc, encode_qid-wire)
response_body-Fits (get_attr attr) h = simp (encode_attr-wire)
response_body-Fits set_attr h = refl
response_body-Fits (xattr_walk size) h = refl
response_body-Fits xattr_create h = refl
response_body-Fits (read content) h = rw (put_counted_data-Fits _ content h)
response_body-Fits (write count) h = refl
response_body-Fits clunk h = refl
response_body-Fits remove h = refl
response_body-Fits (mkdir qid) h = simp (encode_qid-wire)
response_body-Fits link h = refl
response_body-Fits (readdir content) h = rw (put_counted_data-Fits _ content h)
response_body-Fits rename_at h = refl
response_body-Fits unlink_at h = refl
response_body-Fits (symlink qid) h = simp (encode_qid-wire)
response_body-Fits (readlink target) h = rw (put_string-Fits _ target h)
response_body-Fits fsync h = refl
response_body-Fits flush h = refl

-- The encoder accepts no other response.
pub Fits-response_body : (m : NinePResponse) {p : ℕ × Bytes} → response_body m ≡ ok p → Fits m
unfolding response_body
Fits-response_body (lerror _) h = tt
Fits-response_body (version _ ver) h = Fits-put_string _ ver (>>=-eq_ok _ _ h).1
Fits-response_body (attach _) h = tt
Fits-response_body (walk qids) h = Fits-put_qids _ qids (>>=-eq_ok _ _ h).1
Fits-response_body (lopen _ _) h = tt
Fits-response_body (lcreate _ _) h = tt
Fits-response_body (get_attr _) h = tt
Fits-response_body set_attr h = tt
Fits-response_body (xattr_walk _) h = tt
Fits-response_body xattr_create h = tt
Fits-response_body (read content) h = Fits-put_counted_data _ content (>>=-eq_ok _ _ h).1
Fits-response_body (write _) h = tt
Fits-response_body clunk h = tt
Fits-response_body remove h = tt
Fits-response_body (mkdir _) h = tt
Fits-response_body link h = tt
Fits-response_body (readdir content) h = Fits-put_counted_data _ content (>>=-eq_ok _ _ h).1
Fits-response_body rename_at h = tt
Fits-response_body unlink_at h = tt
Fits-response_body (symlink _) h = tt
Fits-response_body (readlink target) h = Fits-put_string _ target (>>=-eq_ok _ _ h).1
Fits-response_body fsync h = tt
Fits-response_body flush h = tt
