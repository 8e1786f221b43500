-- ===== src/P9/Types/Reads.antt =====
-- The bytes of the values that 9P messages carry, and that their decoders read them back.
use star.Base.{ℕ, ◌^◌, ◌<◌, ◌≡◌, true, [], ◌∷◌, ◌++◌, append_assoc, Bytes}
use star.P9.Wire.{le_bytes, put_u8, put_u32, put_u64}
use star.P9.Wire.Utf8.{is_utf8}
use star.P9.Decoder.Reads.{
  Reads, Reads-pure, Reads-bind, Reads-last, Reads-u8, Reads-u32, Reads-u64,
}
use star.P9.Types.{
  Qid, NinePAttr, SetAttr, encode_qid, encode_attr, encode_setattr, read_qid, read_attr,
  read_setattr,
}

-- The ranges of the machine types, and the strings of the language.
abbrev pub IsU16 : ℕ → Type 0
IsU16 v = v < 2 ^ 16

abbrev pub IsU32 : ℕ → Type 0
IsU32 v = v < 2 ^ 32

abbrev pub IsU64 : ℕ → Type 0
IsU64 v = v < 2 ^ 64

abbrev pub IsText : Bytes → Type 0
IsText s = is_utf8 s ≡ true

pub record IsQid (q : Qid) : Type 0 where
  pub typ : q.typ < 2 ^ 8
  pub version : IsU32 q.version
  pub path : IsU64 q.path

pub record IsAttr (a : NinePAttr) : Type 0 where
  pub valid : IsU64 a.valid
  pub qid : IsQid a.qid
  pub mode : IsU32 a.mode
  pub uid : IsU32 a.uid
  pub gid : IsU32 a.gid
  pub nlink : IsU64 a.nlink
  pub rdev : IsU64 a.rdev
  pub size : IsU64 a.size
  pub blksize : IsU64 a.blksize
  pub blocks : IsU64 a.blocks
  pub atime_seconds : IsU64 a.atime_seconds
  pub atime_nanoseconds : IsU64 a.atime_nanoseconds
  pub mtime_seconds : IsU64 a.mtime_seconds
  pub mtime_nanoseconds : IsU64 a.mtime_nanoseconds
  pub ctime_seconds : IsU64 a.ctime_seconds
  pub ctime_nanoseconds : IsU64 a.ctime_nanoseconds
  pub btime_seconds : IsU64 a.btime_seconds
  pub btime_nanoseconds : IsU64 a.btime_nanoseconds
  pub gen : IsU64 a.gen
  pub data_version : IsU64 a.data_version

pub record IsSetAttr (a : SetAttr) : Type 0 where
  pub valid : IsU32 a.valid
  pub mode : IsU32 a.mode
  pub uid : IsU32 a.uid
  pub gid : IsU32 a.gid
  pub size : IsU64 a.size
  pub atime_seconds : IsU64 a.atime_seconds
  pub atime_nanoseconds : IsU64 a.atime_nanoseconds
  pub mtime_seconds : IsU64 a.mtime_seconds
  pub mtime_nanoseconds : IsU64 a.mtime_nanoseconds

abbrev pub wire_qid : Qid → Bytes
wire_qid q = (q.typ ∷ []) ++ (le_bytes 4 q.version ++ (le_bytes 8 q.path))

abbrev pub wire_attr : NinePAttr → Bytes
wire_attr a =
    le_bytes 8 a.valid
    ++ (wire_qid a.qid
        ++ (le_bytes 4 a.mode
            ++ (le_bytes 4 a.uid
                ++ (le_bytes 4 a.gid
                    ++ (le_bytes 8 a.nlink
                        ++ (le_bytes 8 a.rdev
                            ++ (le_bytes 8 a.size
                                ++ (le_bytes 8 a.blksize
                                    ++ (le_bytes 8 a.blocks
                                        ++ (le_bytes 8 a.atime_seconds
                                            ++ (le_bytes 8 a.atime_nanoseconds
                                                ++ (le_bytes 8 a.mtime_seconds
                                                    ++ (le_bytes 8 a.mtime_nanoseconds
                                                        ++ (le_bytes 8 a.ctime_seconds
                                                            ++ (le_bytes 8 a.ctime_nanoseconds
                                                            ++ (le_bytes 8 a.btime_seconds
                                                            ++ (le_bytes 8 a.btime_nanoseconds
                                                            ++ (le_bytes 8 a.gen
                                                            ++ (le_bytes 8
                                                            a.data_version)))))))))))))))))))

abbrev pub wire_setattr : SetAttr → Bytes
wire_setattr a =
    le_bytes 4 a.valid
    ++ (le_bytes 4 a.mode
        ++ (le_bytes 4 a.uid
            ++ (le_bytes 4 a.gid
                ++ (le_bytes 8 a.size
                    ++ (le_bytes 8 a.atime_seconds
                        ++ (le_bytes 8 a.atime_nanoseconds
                            ++ (le_bytes 8 a.mtime_seconds
                                ++ (le_bytes 8 a.mtime_nanoseconds))))))))

pub encode_qid-wire : (out : Bytes) (v : Qid) → encode_qid out v ≡ out ++ wire_qid v
unfolding encode_qid put_u8 put_u32 put_u64
encode_qid-wire out v = simp append_assoc

pub encode_attr-wire : (out : Bytes) (v : NinePAttr) → encode_attr out v ≡ out ++ wire_attr v
unfolding encode_attr encode_qid put_u8 put_u32 put_u64
encode_attr-wire out v = simp append_assoc

pub encode_setattr-wire : (out : Bytes) (v : SetAttr) → encode_setattr out v ≡ out ++ wire_setattr v
unfolding encode_setattr put_u8 put_u32 put_u64
encode_setattr-wire out v = simp append_assoc

pub Reads-qid : (v : Qid) → IsQid v → Reads read_qid (wire_qid v) v
unfolding read_qid
Reads-qid v h = Reads-bind _ _ (Reads-u8 v.typ) (
    Reads-bind _ _ (Reads-u32 v.version h.version)
      (Reads-last _ _ (Reads-u64 v.path h.path) (Reads-pure _)))

pub Reads-attr : (v : NinePAttr) → IsAttr v → Reads read_attr (wire_attr v) v
unfolding read_attr
Reads-attr v h = Reads-bind _ _ (Reads-u64 v.valid h.valid) (
    Reads-bind _ _ (Reads-qid v.qid h.qid) (
      Reads-bind _ _ (Reads-u32 v.mode h.mode) (
        Reads-bind _ _ (Reads-u32 v.uid h.uid) (
          Reads-bind _ _ (Reads-u32 v.gid h.gid) (
            Reads-bind _ _ (Reads-u64 v.nlink h.nlink) (
              Reads-bind _ _ (Reads-u64 v.rdev h.rdev) (
                Reads-bind _ _ (Reads-u64 v.size h.size) (
                  Reads-bind _ _ (Reads-u64 v.blksize h.blksize) (
                    Reads-bind _ _ (Reads-u64 v.blocks h.blocks) (
                      Reads-bind _ _ (Reads-u64 v.atime_seconds h.atime_seconds) (
                        Reads-bind _ _ (Reads-u64 v.atime_nanoseconds h.atime_nanoseconds) (
                          Reads-bind _ _ (Reads-u64 v.mtime_seconds h.mtime_seconds) (
                            Reads-bind _ _ (Reads-u64 v.mtime_nanoseconds h.mtime_nanoseconds) (
                              Reads-bind _ _ (Reads-u64 v.ctime_seconds h.ctime_seconds) (
                                Reads-bind _ _ (Reads-u64 v.ctime_nanoseconds h.ctime_nanoseconds) (
                                  Reads-bind _ _ (Reads-u64 v.btime_seconds h.btime_seconds) (
                                    Reads-bind _ _
                                      (Reads-u64 v.btime_nanoseconds h.btime_nanoseconds)
                                      (Reads-bind _ _ (Reads-u64 v.gen h.gen) (
                                        Reads-last _ _ (Reads-u64 v.data_version h.data_version)
                                          (Reads-pure _))))))))))))))))))))

pub Reads-setattr : (v : SetAttr) → IsSetAttr v → Reads read_setattr (wire_setattr v) v
unfolding read_setattr
Reads-setattr v h = Reads-bind _ _ (Reads-u32 v.valid h.valid) (
    Reads-bind _ _ (Reads-u32 v.mode h.mode) (
      Reads-bind _ _ (Reads-u32 v.uid h.uid) (
        Reads-bind _ _ (Reads-u32 v.gid h.gid) (
          Reads-bind _ _ (Reads-u64 v.size h.size) (
            Reads-bind _ _ (Reads-u64 v.atime_seconds h.atime_seconds) (
              Reads-bind _ _ (Reads-u64 v.atime_nanoseconds h.atime_nanoseconds) (
                Reads-bind _ _ (Reads-u64 v.mtime_seconds h.mtime_seconds) (
                  Reads-last _ _ (Reads-u64 v.mtime_nanoseconds h.mtime_nanoseconds)
                    (Reads-pure _)))))))))
