-- ===== src/P9/Server/Effects.antt =====
-- What single requests do to the fids and to the file system.
use star.Base.{
  ℕ, ◌≡◌, refl, ap, ◌∙◌, Bool, true, false, not, bytes_eq, Option, some, none, if◌then◌else◌, ◌<◌,
  Bool-cases, inl, inr,
}
use star.Base.Table
use star.Base.Table.{get-remove}
use star.Core.Error.{Error, Result, ok, err}
use star.Core.Path.{dot}
use star.Fs.{FileSystem}
use star.P9.Xattr.{XattrWriteState, is_complete}
use star.P9.Xattr.Ranges.{covers}
use star.P9.Xattr.Complete.{IsSound, is_complete_iff}
use star.P9.Server.State.{
  found, FidHandle, FidState, ServerState, Exec, ◌>>=◌, pure, fail, attempt, call, invalid,
  take_fid,
}
use star.P9.Server.Walk.{
  commit_write, commit_handle, commit_xattr_if_ready, close_handle, clunk, remove,
}

-- `m` leaves the table of fids alone, on every way out.
pub record Quiet {sys : FileSystem} {A : Type 0} (m : Exec sys A) : Type 0 where
  pub at : (s : ServerState sys) → (m s).1.fids ≡ s.fids

module _ {sys : FileSystem} {A : Type 0} where
  pub Quiet-pure : (a : A) → Quiet (pure {sys = sys} a)
  unfolding pure
  Quiet-pure a = record { at = λ s. refl }

  pub Quiet-fail : (e : Error) → Quiet (fail {sys = sys} {A = A} e)
  unfolding fail
  Quiet-fail e = record { at = λ s. refl }

  pub Quiet-call : (m : sys.Fs → Result A × sys.Fs) → Quiet (call {sys = sys} m)
  unfolding call
  Quiet-call m = record { at = λ s. refl }

  pub Quiet-attempt : {m : Exec sys A} → Quiet m → Quiet (attempt m)
  unfolding attempt
  Quiet-attempt k = record { at = λ s. k.at s }

  Quiet-if : (b : Bool) {m n : Exec sys A} → Quiet m → Quiet n → Quiet (if b then m else n)
  Quiet-if true k l = k
  Quiet-if false k l = l

module _ {sys : FileSystem} {A B : Type 0} where
  then_fids :
      (f : A → Exec sys B) (r : Result A) (s : ServerState sys)
      → ((a : A) → Quiet (f a))
      → (◌>>=◌ (λ _. (r, s)) f s).1.fids ≡ s.fids
  unfolding ◌>>=◌
  then_fids f (ok a) s k = (k a).at s
  then_fids f (err e) s k = refl

  fids-bind :
      (m : Exec sys A) (f : A → Exec sys B) (s : ServerState sys)
      → ((a : A) → Quiet (f a))
      → ((m >>= f) s).1.fids ≡ (m s).1.fids
  unfolding ◌>>=◌
  fids-bind m f s k = then_fids f (m s).0 (m s).1 k

  pub Quiet-bind :
      {m : Exec sys A} (f : A → Exec sys B) → Quiet m → ((a : A) → Quiet (f a)) → Quiet (m >>= f)
  Quiet-bind {m} f q k = record { at = λ s. fids-bind m f s k ∙ q.at s }

uncovered :
    (w : XattrWriteState) (x : ℕ)
    → IsSound w
    → x < w.expected_size
    → covers x w.written ≡ false
    → is_complete w ≡ false
uncovered w x sound l n = elim (Bool-cases (is_complete w)) [
  | inl e ↦ let all = (is_complete_iff w sound).0 e x l in absurd (cc (all, n))
  | inr e ↦ e
]

module _ {sys : FileSystem} where
  Quiet-close_handle : (h : FidHandle sys.File) → Quiet (close_handle {sys = sys} h)
  unfolding close_handle
  Quiet-close_handle (FidHandle.file f) = Quiet-call _
  Quiet-close_handle _ = Quiet-pure tt

  Quiet-commit_write :
      (st : FidState sys.File) (w : XattrWriteState) → Quiet (commit_write {sys = sys} st w)
  unfolding commit_write
  Quiet-commit_write st w = Quiet-if w.committed (Quiet-pure st) (
      Quiet-if (not (is_complete w)) (Quiet-fail _) (Quiet-bind _ (Quiet-call _) λ _. Quiet-pure _))

  Quiet-commit_handle :
      (st : FidState sys.File) (h : FidHandle sys.File) → Quiet (commit_handle {sys = sys} st h)
  unfolding commit_handle
  Quiet-commit_handle st FidHandle.none = Quiet-pure st
  Quiet-commit_handle st (FidHandle.file f) = Quiet-pure st
  Quiet-commit_handle st (FidHandle.xattr_read content) = Quiet-pure st
  Quiet-commit_handle st (FidHandle.xattr_write w) = Quiet-commit_write st w

  fids-take_fid :
      (fid : ℕ) (s : ServerState sys) → (take_fid fid s).1.fids ≡ Table.remove fid s.fids
  unfolding take_fid
  fids-take_fid fid s = go (Table.get fid s.fids) (record s { fids = Table.remove fid s.fids })
    where
      go : (o : Option (FidState sys.File)) (s' : ServerState sys) → (found o s').1.fids ≡ s'.fids
      go none s' = refl
      go (some st) s' = refl

  -- Whether it succeeds or not, `clunk` removes its fid from the table, and no other.
  pub fids-clunk : (fid : ℕ) (s : ServerState sys) → (clunk fid s).1.fids ≡ Table.remove fid s.fids
  unfolding clunk commit_xattr_if_ready
  fids-clunk fid s =
      fids-bind _ _ s (λ st.
        Quiet-bind _ (Quiet-commit_handle st st.handle)
          λ st'. Quiet-bind _ (Quiet-close_handle st'.handle) λ _. Quiet-pure _)
      ∙ fids-take_fid fid s

  -- Whether it succeeds or not, `remove` removes its fid from the table, and no other.
  fids-remove : (fid : ℕ) (s : ServerState sys) → (remove fid s).1.fids ≡ Table.remove fid s.fids
  unfolding remove
  fids-remove fid s =
      fids-bind _ _ s (λ st. Quiet-if (bytes_eq st.path dot) (Quiet-fail _) (
        Quiet-bind _ (Quiet-attempt (Quiet-close_handle st.handle))
          λ _. Quiet-bind _ (Quiet-call _) λ _. Quiet-pure _))
      ∙ fids-take_fid fid s

  bind-ok :
      {A B : Type 0} (m : Exec sys A) (f : A → Exec sys B) (s s' : ServerState sys) (a : A)
      → m s ≡ (ok a, s')
      → (m >>= f) s ≡ f a s'
  unfolding ◌>>=◌
  bind-ok m f s s' a h = ap (λ r. ◌>>=◌ (λ _. r) f s) h

  bind-err :
      {A B : Type 0} (m : Exec sys A) (f : A → Exec sys B) (s s' : ServerState sys) (e : Error)
      → m s ≡ (err e, s')
      → (m >>= f) s ≡ (err e, s')
  unfolding ◌>>=◌
  bind-err m f s s' e h = ap (λ r. ◌>>=◌ (λ _. r) f s) h

  take_fid-found :
      (fid : ℕ) (s : ServerState sys) (st : FidState sys.File)
      → Table.get fid s.fids ≡ some st
      → take_fid fid s ≡ (ok st, record s { fids = Table.remove fid s.fids })
  unfolding take_fid found
  take_fid-found fid s st h = ap (λ o. found o (record s { fids = Table.remove fid s.fids })) h

  commit_incomplete :
      (st : FidState sys.File) (w : XattrWriteState) (s : ServerState sys)
      → st.handle ≡ FidHandle.xattr_write w
      → w.committed ≡ false
      → is_complete w ≡ false
      → commit_xattr_if_ready st s ≡ (err invalid, s)
  unfolding commit_xattr_if_ready commit_handle commit_write fail
  commit_incomplete st w s k c i = ap (λ h. commit_handle st h s) k ∙ rw (i, c) refl

  -- An attribute of which some byte was never written, and that was not committed before, is not handed
  -- to the file system when its fid is clunked: `clunk` fails, the file system is left alone, and only the
  -- fid is gone.
  pub clunk_incomplete :
      (fid x : ℕ) (s : ServerState sys) (st : FidState sys.File) (w : XattrWriteState)
      → Table.get fid s.fids ≡ some st
      → st.handle ≡ FidHandle.xattr_write w
      → IsSound w
      → x < w.expected_size
      → covers x w.written ≡ false
      → w.committed ≡ false
      → clunk fid s ≡ (err invalid, record s { fids = Table.remove fid s.fids })
  unfolding clunk
  clunk_incomplete fid x s st w h k sound l n c =
      let s' = record s { fids = Table.remove fid s.fids } in
      bind-ok _ _ s s' st (take_fid-found fid s st h)
      ∙ bind-err _ _ s' s' invalid (commit_incomplete st w s' k c (uncovered w x sound l n))
