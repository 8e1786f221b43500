-- ===== src/P9/Server/State.antt =====
-- The state of the server, and the steps that its handlers are made of.
use star.Base.{ℕ, Bool, Option, Bytes, if◌then◌else◌}
use star.Base.Table
use star.Base.Table.{Table}
use star.Core.Error.{Error, ErrorKind, Result, ok, err}
use star.Fs.{FileSystem}
use star.P9.Xattr.{XattrWriteState}

pub data FidHandle (F : Type 0) : Type 0 where
  none : FidHandle F
  file : F → FidHandle F
  xattr_read : Bytes → FidHandle F
  xattr_write : XattrWriteState → FidHandle F

pub record FidState (F : Type 0) : Type 0 where
  pub path : Bytes
  pub handle : FidHandle F
  pub flags : ℕ

-- `FidState::unopened`
unfoldable pub unopened : {F : Type 0} → Bytes → FidState F
unopened path = record { path = path; handle = FidHandle.none; flags = 0 }

-- `ServerState`, with the state of the file system.
pub record ServerState (sys : FileSystem) : Type 0 where
  pub fs : sys.Fs
  pub msize : ℕ
  pub fids : Table (FidState sys.File)

-- A handler: its result, and the state that it leaves on every way out.
abbrev pub Exec : FileSystem → Type 0 → Type 0
Exec sys A = ServerState sys → Result A × ServerState sys

module _ {sys : FileSystem} {A B : Type 0} where
  abbrev and_then : Result A × ServerState sys → (A → Exec sys B) → Result B × ServerState sys
  and_then (ok a, s) f = f a s
  and_then (err e, s) f = (err e, s)

  infixl 5 ◌>>=◌
  unfoldable pub ◌>>=◌ : Exec sys A → (A → Exec sys B) → Exec sys B
  ◌>>=◌ m f s = and_then (m s) f

module _ {sys : FileSystem} {A : Type 0} where
  unfoldable pub pure : A → Exec sys A
  pure a s = (ok a, s)

  unfoldable pub fail : Error → Exec sys A
  fail e s = (err e, s)

  -- A `match` on a `Result`.
  unfoldable pub attempt : Exec sys A → Exec sys (Result A)
  attempt m s = let (r, s') = m s in (ok r, s')

  -- A call of the file system.
  unfoldable pub call : (sys.Fs → Result A × sys.Fs) → Exec sys A
  call m s = let (r, fs') = m s.fs in (r, record s { fs = fs' })

-- `ErrorKind::Invalid.into()`
abbrev pub invalid : Error
invalid = Error.kind ErrorKind.invalid

module _ {sys : FileSystem} where
  unfoldable pub when : Bool → Exec sys (Unit {0}) → Exec sys (Unit {0})
  unfolding pure
  when b m = if b then m else pure tt

  unfoldable pub found : Option (FidState sys.File) → Exec sys (FidState sys.File)
  found Option.none s = (err invalid, s)
  found (Option.some st) s = (ok st, s)

  -- `state.fids.get(&fid).ok_or(ErrorKind::Invalid)?`
  unfoldable pub get_fid : ℕ → Exec sys (FidState sys.File)
  unfolding found
  get_fid fid s = found (Table.get fid s.fids) s

  unfoldable pub set_fid : ℕ → FidState sys.File → Exec sys (Unit {0})
  set_fid fid st s = (ok tt, record s { fids = Table.insert fid st s.fids })

  -- `state.fids.remove(&fid)`, then `ok_or(ErrorKind::Invalid)?`
  unfoldable pub take_fid : ℕ → Exec sys (FidState sys.File)
  unfolding found
  take_fid fid s = found (Table.get fid s.fids) (record s { fids = Table.remove fid s.fids })

  -- `newfid != fid && state.fids.contains_key(&newfid)`
  unfoldable pub is_taken : ℕ → Exec sys Bool
  is_taken fid s = (ok (Table.contains_key fid s.fids), s)

  unfoldable pub fid_path : ℕ → Exec sys Bytes
  unfolding ◌>>=◌ pure get_fid
  fid_path fid = do st ← get_fid fid; pure st.path

  -- A call on the open file of a fid, which the fid keeps.
  unfoldable pub call_file :
      {A : Type 0}
      → ℕ
      → FidState sys.File
      → sys.File
      → (sys.File → sys.Fs → Result A × sys.File × sys.Fs)
      → Exec sys A
  call_file fid st f m s =
      let (r, f', fs') = m f s.fs in
      let kept = record st { handle = FidHandle.file f' } in
      (r, record s { fs = fs'; fids = Table.insert fid kept s.fids })
