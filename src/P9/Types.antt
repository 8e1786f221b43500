-- ===== src/P9/Types.antt =====
-- The values that 9P messages carry, with their encoders and decoders:
-- `Qid`, `NinePAttr`, `SetAttr` and `NinePDirent` of crates/star9-protocol/src/p9.rs.
pub mod Reads
pub mod Counted
use star.Base.{ℕ, zero, suc, List, [], ◌∷◌, Bytes, length}
use star.Core.Error.{Result, ok, ◌>>=◌ as and_then}
use star.P9.Wire.{put_u8, put_u16, put_u32, put_u64, put_string, try_into, u16_max}
use star.P9.Decoder.{Decode, ◌>>=◌, pure, read_u8, read_u16, read_u32, read_u64, read_string}

pub record Qid : Type 0 where
  pub typ : ℕ
  pub version : ℕ
  pub path : ℕ

pub record NinePAttr : Type 0 where
  pub valid : ℕ
  pub qid : Qid
  pub mode : ℕ
  pub uid : ℕ
  pub gid : ℕ
  pub nlink : ℕ
  pub rdev : ℕ
  pub size : ℕ
  pub blksize : ℕ
  pub blocks : ℕ
  pub atime_seconds : ℕ
  pub atime_nanoseconds : ℕ
  pub mtime_seconds : ℕ
  pub mtime_nanoseconds : ℕ
  pub ctime_seconds : ℕ
  pub ctime_nanoseconds : ℕ
  pub btime_seconds : ℕ
  pub btime_nanoseconds : ℕ
  pub gen : ℕ
  pub data_version : ℕ

pub record SetAttr : Type 0 where
  pub valid : ℕ
  pub mode : ℕ
  pub uid : ℕ
  pub gid : ℕ
  pub size : ℕ
  pub atime_seconds : ℕ
  pub atime_nanoseconds : ℕ
  pub mtime_seconds : ℕ
  pub mtime_nanoseconds : ℕ

pub record NinePDirent : Type 0 where
  pub qid : Qid
  pub offset : ℕ
  pub typ : ℕ
  pub name : Bytes

unfoldable pub encode_qid : Bytes → Qid → Bytes
encode_qid out qid =
    let out1 = put_u8 out qid.typ in let out2 = put_u32 out1 qid.version in put_u64 out2 qid.path

unfoldable pub encode_attr : Bytes → NinePAttr → Bytes
encode_attr out attr =
    let out1 = put_u64 out attr.valid in
    let out2 = encode_qid out1 attr.qid in
    let out3 = put_u32 out2 attr.mode in
    let out4 = put_u32 out3 attr.uid in
    let out5 = put_u32 out4 attr.gid in
    let out6 = put_u64 out5 attr.nlink in
    let out7 = put_u64 out6 attr.rdev in
    let out8 = put_u64 out7 attr.size in
    let out9 = put_u64 out8 attr.blksize in
    let out10 = put_u64 out9 attr.blocks in
    let out11 = put_u64 out10 attr.atime_seconds in
    let out12 = put_u64 out11 attr.atime_nanoseconds in
    let out13 = put_u64 out12 attr.mtime_seconds in
    let out14 = put_u64 out13 attr.mtime_nanoseconds in
    let out15 = put_u64 out14 attr.ctime_seconds in
    let out16 = put_u64 out15 attr.ctime_nanoseconds in
    let out17 = put_u64 out16 attr.btime_seconds in
    let out18 = put_u64 out17 attr.btime_nanoseconds in
    let out19 = put_u64 out18 attr.gen in put_u64 out19 attr.data_version

unfoldable pub encode_setattr : Bytes → SetAttr → Bytes
encode_setattr out attr =
    let out1 = put_u32 out attr.valid in
    let out2 = put_u32 out1 attr.mode in
    let out3 = put_u32 out2 attr.uid in
    let out4 = put_u32 out3 attr.gid in
    let out5 = put_u64 out4 attr.size in
    let out6 = put_u64 out5 attr.atime_seconds in
    let out7 = put_u64 out6 attr.atime_nanoseconds in
    let out8 = put_u64 out7 attr.mtime_seconds in put_u64 out8 attr.mtime_nanoseconds

unfoldable pub read_qid : Decode Qid
read_qid = do
  typ ← read_u8
  version ← read_u32
  path ← read_u64
  pure (record { typ = typ; version = version; path = path })

unfoldable pub read_attr : Decode NinePAttr
read_attr = do
  valid ← read_u64
  qid ← read_qid
  mode ← read_u32
  uid ← read_u32
  gid ← read_u32
  nlink ← read_u64
  rdev ← read_u64
  size ← read_u64
  blksize ← read_u64
  blocks ← read_u64
  atime_seconds ← read_u64
  atime_nanoseconds ← read_u64
  mtime_seconds ← read_u64
  mtime_nanoseconds ← read_u64
  ctime_seconds ← read_u64
  ctime_nanoseconds ← read_u64
  btime_seconds ← read_u64
  btime_nanoseconds ← read_u64
  gen ← read_u64
  data_version ← read_u64
  pure (record {
    valid = valid;
    qid = qid;
    mode = mode;
    uid = uid;
    gid = gid;
    nlink = nlink;
    rdev = rdev;
    size = size;
    blksize = blksize;
    blocks = blocks;
    atime_seconds = atime_seconds;
    atime_nanoseconds = atime_nanoseconds;
    mtime_seconds = mtime_seconds;
    mtime_nanoseconds = mtime_nanoseconds;
    ctime_seconds = ctime_seconds;
    ctime_nanoseconds = ctime_nanoseconds;
    btime_seconds = btime_seconds;
    btime_nanoseconds = btime_nanoseconds;
    gen = gen;
    data_version = data_version;
  })

unfoldable pub read_setattr : Decode SetAttr
read_setattr = do
  valid ← read_u32
  mode ← read_u32
  uid ← read_u32
  gid ← read_u32
  size ← read_u64
  atime_seconds ← read_u64
  atime_nanoseconds ← read_u64
  mtime_seconds ← read_u64
  mtime_nanoseconds ← read_u64
  pure (record {
    valid = valid;
    mode = mode;
    uid = uid;
    gid = gid;
    size = size;
    atime_seconds = atime_seconds;
    atime_nanoseconds = atime_nanoseconds;
    mtime_seconds = mtime_seconds;
    mtime_nanoseconds = mtime_nanoseconds;
  })

-- The names of a walk: their number and each of them.
put_each_string : Bytes → List Bytes → Result Bytes
put_each_string out [] = ok out
put_each_string out (name ∷ names) =
    and_then (put_string out name) λ out'. put_each_string out' names

unfoldable pub put_names : Bytes → List Bytes → Result Bytes
unfolding put_each_string
put_names out names =
    and_then (try_into u16_max (length names)) λ n. put_each_string (put_u16 out n) names

put_each_qid : Bytes → List Qid → Bytes
put_each_qid out [] = out
put_each_qid out (qid ∷ qids) = put_each_qid (encode_qid out qid) qids

unfoldable pub put_qids : Bytes → List Qid → Result Bytes
unfolding put_each_qid
put_qids out qids =
    and_then (try_into u16_max (length qids)) λ n. ok (put_each_qid (put_u16 out n) qids)

-- `for _ in 0..n { out.push(m()?) }`
unfoldable pub read_times {ℓ} : {A : Type ℓ} → ℕ → Decode A → Decode (List A)
read_times zero m = pure []
read_times (suc n) m = do a ← m; rest ← read_times n m; pure (a ∷ rest)

unfoldable pub read_names : Decode (List Bytes)
read_names = do n ← read_u16; read_times n read_string

unfoldable pub read_qids : Decode (List Qid)
read_qids = do n ← read_u16; read_times n read_qid
