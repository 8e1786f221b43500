-- ===== src/P9/Server/Safe/Fids.antt =====
-- The requests by which fids come and go keep the server's state safe.
use star.Base.{ℕ, ◌≡◌, refl, true, not, ◌||◌, ◌&&◌, ◌==◌, List, [], ◌∷◌, ◌++◌, Bytes, bytes_eq}
use star.Core.Error.{Error}
use star.Core.Path.{dot, valid_path, is_nil}
use star.Fs.{FileSystem}
use star.P9.Attr.{walk_join, checked_join, contains_slash}
use star.P9.Attr.Laws.{walk_join-valid, checked_join-valid}
use star.P9.Types.{Qid}
use star.P9.Xattr.{XattrWriteState, is_complete}
use star.P9.Xattr.Complete.{IsSound}
use star.P9.Server.State.{FidHandle, FidState}
use star.P9.Server.Walk.{
  qid_for, attach, walk_loop, stop_walk, walk, lopen, lcreate, commit_write, commit_handle,
  commit_xattr_if_ready, close_handle, clunk, remove,
}
use star.P9.Server.Keeps.{
  IsGood, SoundHandle, Keeps, Any, Keeps-pure, Keeps-fail, Keeps-if, Keeps-attempt, Keeps-bind,
  Keeps-result, Keeps-call, Keeps-lift, Keeps-is_taken, Keeps-get_fid, Keeps-take_fid,
  Keeps-set_fid, Keeps-fid_path, unopened-IsGood,
}

module _ {sys : FileSystem} where
  pub Keeps-qid_for : (path : Bytes) → Keeps (qid_for {sys = sys} path) Any
  unfolding qid_for
  Keeps-qid_for path = Keeps-bind _ (Keeps-call _) (λ meta _. Keeps-pure _ tt)

  pub Keeps-attach : (fid : ℕ) → Keeps (attach {sys = sys} fid) Any
  unfolding attach
  Keeps-attach fid = Keeps-bind _ (Keeps-qid_for dot) λ qid _.
      Keeps-bind _ (Keeps-set_fid fid _ (unopened-IsGood dot (unfold valid_path bytes_eq in refl)))
        λ _ _. Keeps-pure _ tt

  pub Keeps-stop_walk :
      (path : Bytes) (qids : List Qid) (e : Error)
      → valid_path path ≡ true
      → Keeps (stop_walk {sys = sys} path qids e) (λ p. valid_path p.0 ≡ true)
  unfolding stop_walk
  Keeps-stop_walk path [] e v = Keeps-fail e
  Keeps-stop_walk path (qid ∷ qids) e v = Keeps-pure _ v

  pub Keeps-walk_loop :
      (path : Bytes) (qids : List Qid) (names : List Bytes)
      → valid_path path ≡ true
      → Keeps (walk_loop {sys = sys} path qids names) (λ p. valid_path p.0 ≡ true)
  unfolding walk_loop
  Keeps-walk_loop path qids [] v = Keeps-pure _ v
  Keeps-walk_loop path qids (name ∷ names) v =
      Keeps-if (contains_slash name || is_nil name) (Keeps-fail _) (
        Keeps-bind _ (Keeps-attempt (Keeps-qid_for (walk_join path name))) λ r _.
          Keeps-result r _ _
            (λ qid.
              Keeps-walk_loop (walk_join path name) (qids ++ qid ∷ []) names
                (walk_join-valid path name v))
            (λ e. Keeps-stop_walk path qids e v))

  pub Keeps-walk :
      (fid newfid : ℕ) (names : List Bytes) → Keeps (walk {sys = sys} fid newfid names) Any
  unfolding walk
  Keeps-walk fid newfid names = Keeps-bind _ (Keeps-is_taken newfid) λ taken _.
      Keeps-if (not (newfid == fid) && taken) (Keeps-fail _) (
        Keeps-bind _ (Keeps-get_fid fid) λ st g.
          Keeps-bind _ (Keeps-walk_loop st.path [] names g.valid) λ p v.
            Keeps-bind _ (Keeps-set_fid newfid _ (unopened-IsGood p.0 v)) λ _ _. Keeps-pure _ tt)

  pub Keeps-lopen : (fid flags : ℕ) → Keeps (lopen {sys = sys} fid flags) Any
  unfolding lopen
  Keeps-lopen fid flags = Keeps-bind _ (Keeps-fid_path fid) λ path v.
      Keeps-bind _ (Keeps-call _) λ f _. Keeps-bind _ (Keeps-qid_for path) λ qid _.
        Keeps-bind _ (Keeps-get_fid fid) λ st g.
          Keeps-bind _ (Keeps-set_fid fid _ (record { valid = g.valid; sound = tt }))
            λ _ _. Keeps-pure _ tt

  pub Keeps-lcreate :
      (fid : ℕ) (name : Bytes) (flags mode : ℕ)
      → Keeps (lcreate {sys = sys} fid name flags mode) Any
  unfolding lcreate
  Keeps-lcreate fid name flags mode = Keeps-bind _ (Keeps-fid_path fid) λ parent v.
      Keeps-bind _ (Keeps-lift (checked_join parent name)) λ path e.
        Keeps-bind _ (Keeps-call _) λ f _. Keeps-bind _ (Keeps-qid_for path) λ qid _.
          Keeps-bind _ (Keeps-get_fid fid) λ st g.
            Keeps-bind _
              (Keeps-set_fid fid _
                (record { valid = checked_join-valid parent name e; sound = tt }))
              λ _ _. Keeps-pure _ tt

  pub Keeps-commit_write :
      (st : FidState sys.File) (w : XattrWriteState)
      → IsGood st
      → IsSound w
      → Keeps (commit_write {sys = sys} st w) IsGood
  unfolding commit_write
  Keeps-commit_write st w g s = Keeps-if w.committed (Keeps-pure st g) (
      Keeps-if (not (is_complete w)) (Keeps-fail _) (
        Keeps-bind _ (Keeps-call _) λ _ _. Keeps-pure _ (record {
          valid = g.valid;
          sound = record { size = s.size; normal = s.normal; bounded = s.bounded };
        })))

  pub Keeps-commit_handle :
      (st : FidState sys.File) (h : FidHandle sys.File)
      → IsGood st
      → SoundHandle h
      → Keeps (commit_handle {sys = sys} st h) IsGood
  unfolding commit_handle
  Keeps-commit_handle st FidHandle.none g s = Keeps-pure st g
  Keeps-commit_handle st (FidHandle.file f) g s = Keeps-pure st g
  Keeps-commit_handle st (FidHandle.xattr_read content) g s = Keeps-pure st g
  Keeps-commit_handle st (FidHandle.xattr_write w) g s = Keeps-commit_write st w g s

  pub Keeps-commit_xattr_if_ready :
      (st : FidState sys.File) → IsGood st → Keeps (commit_xattr_if_ready {sys = sys} st) IsGood
  unfolding commit_xattr_if_ready
  Keeps-commit_xattr_if_ready st g = Keeps-commit_handle st st.handle g g.sound

  pub Keeps-close_handle : (h : FidHandle sys.File) → Keeps (close_handle {sys = sys} h) Any
  unfolding close_handle
  Keeps-close_handle (FidHandle.file f) = Keeps-call _
  Keeps-close_handle _ = Keeps-pure tt tt

  pub Keeps-clunk : (fid : ℕ) → Keeps (clunk {sys = sys} fid) Any
  unfolding clunk
  Keeps-clunk fid = Keeps-bind _ (Keeps-take_fid fid) λ st g.
      Keeps-bind _ (Keeps-commit_xattr_if_ready st g)
        λ st' _. Keeps-bind _ (Keeps-close_handle st'.handle) λ _ _. Keeps-pure _ tt

  pub Keeps-remove : (fid : ℕ) → Keeps (remove {sys = sys} fid) Any
  unfolding remove
  Keeps-remove fid = Keeps-bind _ (Keeps-take_fid fid) λ st g.
      Keeps-if (bytes_eq st.path dot) (Keeps-fail _) (
        Keeps-bind _ (Keeps-attempt (Keeps-close_handle st.handle))
          λ _ _. Keeps-bind _ (Keeps-call _) λ _ _. Keeps-pure _ tt)
