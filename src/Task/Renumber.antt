-- ===== src/Task/Renumber.antt =====
-- What `renumber_fd` of crates/star9-task/src/lib.rs does to all descriptors.
use star.Base.{
  ℕ, ◌≡◌, refl, ap, sym, subst, ◌∙◌, ◌==◌, ==_iff, Option, none, some, if◌then◌else◌, Bool-cases,
  inl, inr,
}
use star.Base.Table
use star.Base.Table.{Table, get-insert, get-remove}
use star.Core.Error.{Error, Result, ok, err}
use star.Task.Fds.{
  OpenFile, FdTable, path_of, fd_path, replace, renumber_found, renumber_same, renumber_fd,
}

module _ {F W : Type 0} (close : F → W → Result (Unit {0}) × F × W) where
  get-replaced :
      (from to fd : ℕ) (source : OpenFile F) (t : Table (OpenFile F))
      → Table.get fd (Table.insert to source (Table.remove from t))
        ≡ (if to == fd then some source else if from == fd then none else Table.get fd t)
  get-replaced from to fd source t =
      get-insert to fd source (Table.remove from t)
      ∙ ap (λ o. if to == fd then some source else o) (get-remove from fd t)

  -- Where the descriptors of a table come from.
  abbrev Moved : ℕ → ℕ → FdTable F → FdTable F → Type 0
  Moved from to before after =
      (fd : ℕ)
      → Table.get fd after.files ≡ (
          if to == fd
          then Table.get from before.files
          else if from == fd
          then none
          else Table.get fd before.files)

  same-Moved : (from : ℕ) (fds : FdTable F) → Moved from from fds fds
  same-Moved from fds fd = elim (Bool-cases (from == fd)) [
    | inl e ↦ rw e (ap (λ k. Table.get k fds.files) (sym ((==_iff from fd).0 e)))
    | inr e ↦ rw e refl
  ]

  replace-Moved :
      (from to : ℕ) (source target : OpenFile F) (fds : FdTable F) (r : Result (Unit {0}) × F × W)
      → Table.get from fds.files ≡ some source
      → (replace close from to source target fds r).0 ≡ ok tt
      → Moved from to fds (replace close from to source target fds r).1
  unfolding replace
  replace-Moved from to source target fds (ok u, f, w) hs h fd =
      get-replaced from to fd source fds.files
      ∙ ap (λ o. if to == fd then o else if from == fd then none else Table.get fd fds.files)
          (sym hs)
  replace-Moved from to source target fds (err e, f, w) hs h fd = absurd (cc h)

  renumber_found-Moved :
      (from to : ℕ) (o p : Option (OpenFile F)) (fds : FdTable F) (w : W)
      → Table.get from fds.files ≡ o
      → (renumber_found close from to o p fds w).0 ≡ ok tt
      → Moved from to fds (renumber_found close from to o p fds w).1
  unfolding renumber_found
  renumber_found-Moved from to none p fds w hs h fd = absurd (cc h)
  renumber_found-Moved from to (some source) none fds w hs h fd = absurd (cc h)
  renumber_found-Moved from to (some source) (some target) fds w hs h fd =
      replace-Moved from to source target fds (close target.file w) hs h fd

  kept_path :
      (to fd : ℕ) (target : OpenFile F) (f : F) (t : Table (OpenFile F))
      → Table.get to t ≡ some target
      → path_of fd (Table.get fd (Table.insert to (record target { file = f }) t))
        ≡ path_of fd (Table.get fd t)
  unfolding path_of
  kept_path to fd target f t h = elim (Bool-cases (to == fd)) [
    | inl e ↦
        let same : Table.get fd t ≡ some target =
          ap (λ k. Table.get k t) (sym ((==_iff to fd).0 e)) ∙ h in
        rw (get-insert to fd (record target { file = f }) t, e, same) refl
    | inr e ↦ rw (get-insert to fd (record target { file = f }) t, e) refl
  ]

  replace-failed :
      (from to fd : ℕ) (source target : OpenFile F) (fds : FdTable F)
      (r : Result (Unit {0}) × F × W) (e : Error)
      → Table.get to fds.files ≡ some target
      → (replace close from to source target fds r).0 ≡ err e
      → fd_path fd (replace close from to source target fds r).1 ≡ fd_path fd fds
  unfolding replace fd_path
  replace-failed from to fd source target fds (ok u, f, w) e ht h = absurd (cc (h))
  replace-failed from to fd source target fds (err e', f, w) e ht h =
      kept_path to fd target f fds.files ht

  renumber_found-failed :
      (from to fd : ℕ) (o p : Option (OpenFile F)) (fds : FdTable F) (w : W) (e : Error)
      → Table.get to fds.files ≡ p
      → (renumber_found close from to o p fds w).0 ≡ err e
      → fd_path fd (renumber_found close from to o p fds w).1 ≡ fd_path fd fds
  unfolding renumber_found
  renumber_found-failed from to fd none p fds w e ht h = refl
  renumber_found-failed from to fd (some source) none fds w e ht h = refl
  renumber_found-failed from to fd (some source) (some target) fds w e ht h =
      replace-failed from to fd source target fds (close target.file w) e ht h

  renumber_same-kept :
      (from : ℕ) (o : Option (OpenFile F)) (fds : FdTable F) (w : W)
      → (renumber_same close from o fds w).1 ≡ fds
  unfolding renumber_same
  renumber_same-kept from none fds w = refl
  renumber_same-kept from (some source) fds w = refl

  -- A renumbering that reports an error, whichever, leaves the same descriptors open, each with the path
  -- that it had.
  pub renumber_fd-failed :
      (from to fd : ℕ) (fds : FdTable F) (w : W) (e : Error)
      → (renumber_fd close from to fds w).0 ≡ err e
      → fd_path fd (renumber_fd close from to fds w).1 ≡ fd_path fd fds
  unfolding renumber_fd
  renumber_fd-failed from to fd fds w e h = elim (Bool-cases (from == to)) [
    | inl s ↦ rw s (ap (fd_path fd) (renumber_same-kept from (Table.get from fds.files) fds w))
    | inr s ↦ rw s (
        renumber_found-failed from to fd (Table.get from fds.files) (Table.get to fds.files) fds w e
          refl (rw s at h))
  ]

  -- Whenever a renumbering succeeds, also of a descriptor to itself, the second number has the file that
  -- the first one had, the first number is free if it is another one, and all other descriptors are as
  -- they were.
  pub renumber_fd-Moved :
      (from to : ℕ) (fds : FdTable F) (w : W)
      → (renumber_fd close from to fds w).0 ≡ ok tt
      → Moved from to fds (renumber_fd close from to fds w).1
  unfolding renumber_fd
  renumber_fd-Moved from to fds w h = elim (Bool-cases (from == to)) [
    | inl s ↦
        rw (s, renumber_same-kept from (Table.get from fds.files) fds w)
          (subst (λ k. Moved from k fds fds) ((==_iff from to).0 s) (same-Moved from fds))
    | inr s ↦ rw s (
        renumber_found-Moved from to (Table.get from fds.files) (Table.get to fds.files) fds w refl
          (rw s at h))
  ]
