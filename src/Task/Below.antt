-- ===== src/Task/Below.antt =====
-- No descriptor of a table of crates/star9-task/src/lib.rs is at or above the next one.
use star.Base.{
  ℕ, ◌≤◌, ◌<◌, ◌≡◌, ◌⊎◌, refl, leb, ◌==◌, ==_iff, Bytes, Option, none, some, if◌then◌else◌, arith,
  Bool-cases, inl, inr,
}
use star.Base.Table
use star.Base.Table.{Table, get-insert, get-remove}
use star.Core.Error.{Result, ok, err}
use star.Task.Fds.{
  last_fd, OpenFile, FdTable, open_fd, set_fd, close_found, close_fd, clear_fds, replace,
  renumber_found, renumber_same, renumber_fd,
}

-- Every open descriptor is below the next one, and the next one is not a standard one.
pub record IsBelow {F : Type 0} (fds : FdTable F) : Type 0 where
  pub standard : 3 ≤ fds.next
  pub below : (fd : ℕ) (f : OpenFile F) → Table.get fd fds.files ≡ some f → fd < fds.next

module _ {F : Type 0} where
  get_if :
      (k fd : ℕ) (o p : Option (OpenFile F)) {f : OpenFile F}
      → (if k == fd then o else p) ≡ some f
      → ((k ≡ fd) × (o ≡ some f)) ⊎ (p ≡ some f)
  get_if k fd o p h = elim (Bool-cases (k == fd)) [
    | inl e ↦ inl ((==_iff k fd).0 e, rw e at h)
    | inr e ↦ inr (rw e at h)
  ]

  insert-below :
      (k n m : ℕ) (v : OpenFile F) (t : Table (OpenFile F))
      → k < m
      → n ≤ m
      → ((fd : ℕ) (f : OpenFile F) → Table.get fd t ≡ some f → fd < n)
      → (fd : ℕ) (f : OpenFile F) → Table.get fd (Table.insert k v t) ≡ some f
      → fd < m
  insert-below k n m v t h l b fd f p =
      elim (get_if k fd (some v) (Table.get fd t) (rw (get-insert k fd v t) at p)) [
        | inl e ↦ omega (arith, e.0, h)
        | inr e ↦ omega (arith, b fd f e, l)
      ]

  remove-below :
      (k n : ℕ) (t : Table (OpenFile F))
      → ((fd : ℕ) (f : OpenFile F) → Table.get fd t ≡ some f → fd < n)
      → (fd : ℕ) (f : OpenFile F) → Table.get fd (Table.remove k t) ≡ some f
      → fd < n
  remove-below k n t b fd f p =
      elim (get_if k fd none (Table.get fd t) (rw (get-remove k fd t) at p)) [
        | inl e ↦
            let none-some : ◌≡◌ {A = Option (OpenFile F)} none (some f) = e.1 in cc (none-some)
        | inr e ↦ b fd f e
      ]

  pub open_fd-IsBelow :
      (file : F) (path : Bytes) (fds : FdTable F)
      → fds.next < last_fd
      → IsBelow fds
      → IsBelow (open_fd file path fds).1
  unfolding open_fd
  open_fd-IsBelow file path fds h v = record {
    standard = omega (arith, v.standard, h);
    below =
        insert-below fds.next fds.next _ _ fds.files (omega (arith, h)) (omega (arith, h)) v.below;
  }

  pub set_fd-IsBelow :
      (fd : ℕ) (file : F) (path : Bytes) (fds : FdTable F)
      → fd < last_fd
      → IsBelow fds
      → IsBelow (set_fd fd file path fds)
  unfolding set_fd
  set_fd-IsBelow fd file path fds h v = elim (Bool-cases (leb fds.next fd)) [
    | inl e ↦
        let le : fds.next ≤ fd = ground (arith, e) in
        rw e (record {
          standard = omega (arith, v.standard, h, le);
          below =
              insert-below fd fds.next _ _ fds.files (omega (arith, h)) (omega (arith, h, le))
                v.below;
        })
    | inr e ↦
        let lt : fd < fds.next = ground (arith, e) in
        rw e (record {
          standard = v.standard;
          below = insert-below fd fds.next fds.next _ fds.files lt (omega arith) v.below;
        })
  ]

module _ {F W : Type 0} (close : F → W → Result (Unit {0}) × F × W) where
  close_found-IsBelow :
      (fd : ℕ) (o : Option (OpenFile F)) (fds : FdTable F) (w : W)
      → IsBelow fds
      → IsBelow (close_found close fd o fds w).1
  unfolding close_found
  close_found-IsBelow fd none fds w v = v
  close_found-IsBelow fd (some f) fds w v = v

  pub close_fd-IsBelow :
      (fd : ℕ) (fds : FdTable F) (w : W) → IsBelow fds → IsBelow (close_fd close fd fds w).1
  unfolding close_fd
  close_fd-IsBelow fd fds w v =
      close_found-IsBelow fd (Table.get fd fds.files)
        (record fds { files = Table.remove fd fds.files }) w
        (record { standard = v.standard; below = remove-below fd fds.next fds.files v.below })

  pub clear_fds-IsBelow :
      (fds : FdTable F) (w : W) → IsBelow fds → IsBelow (clear_fds close fds w).1
  unfolding clear_fds
  clear_fds-IsBelow fds w v = record {
    standard = v.standard;
    below = λ fd f p. unfold Table.get in cc (p);
  }

  replace-IsBelow :
      (from to : ℕ) (source target : OpenFile F) (fds : FdTable F) (r : Result (Unit {0}) × F × W)
      → to < fds.next
      → IsBelow fds
      → IsBelow (replace close from to source target fds r).1
  unfolding replace
  replace-IsBelow from to source target fds (ok u, f, w) h v = record {
    standard = v.standard;
    below =
        insert-below to fds.next fds.next source (Table.remove from fds.files) h (omega arith)
          (remove-below from fds.next fds.files v.below);
  }
  replace-IsBelow from to source target fds (err e, f, w) h v = record {
    standard = v.standard;
    below = insert-below to fds.next fds.next _ fds.files h (omega arith) v.below;
  }

  renumber_found-IsBelow :
      (from to : ℕ) (o p : Option (OpenFile F)) (fds : FdTable F) (w : W)
      → ((target : OpenFile F) → p ≡ some target → to < fds.next)
      → IsBelow fds
      → IsBelow (renumber_found close from to o p fds w).1
  unfolding renumber_found
  renumber_found-IsBelow from to none p fds w h v = v
  renumber_found-IsBelow from to (some source) none fds w h v = v
  renumber_found-IsBelow from to (some source) (some target) fds w h v =
      replace-IsBelow from to source target fds (close target.file w) (h target refl) v

  renumber_same-IsBelow :
      (from : ℕ) (o : Option (OpenFile F)) (fds : FdTable F) (w : W)
      → IsBelow fds
      → IsBelow (renumber_same close from o fds w).1
  unfolding renumber_same
  renumber_same-IsBelow from none fds w v = v
  renumber_same-IsBelow from (some f) fds w v = v

  pub renumber_fd-IsBelow :
      (from to : ℕ) (fds : FdTable F) (w : W)
      → IsBelow fds
      → IsBelow (renumber_fd close from to fds w).1
  unfolding renumber_fd
  renumber_fd-IsBelow from to fds w v = elim (Bool-cases (from == to)) [
    | inl e ↦ rw e (renumber_same-IsBelow from (Table.get from fds.files) fds w v)
    | inr e ↦ rw e (
        renumber_found-IsBelow from to (Table.get from fds.files) (Table.get to fds.files) fds w
          (v.below to) v)
  ]
