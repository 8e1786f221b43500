-- ===== src/Task/Reach.antt =====
-- The descriptor tables that a task of crates/star9-task/src/lib.rs comes to, as long as no descriptor
-- reaches the last number of 32 bits.
use star.Base.{
  ℕ, ◌≤◌, ◌<◌, ◌≡◌, ◌==◌, Bytes, none, some, if◌then◌else◌, arith, Option-cases, inl, inr,
}
use star.Base.Table
use star.Base.Table.{Table, get-insert, get-remove}
use star.Core.Error.{Result}
use star.Task.Fds.{last_fd, FdTable, new_fds, open_fd, set_fd, close_fd, clear_fds, renumber_fd}
use star.Task.Below.{
  IsBelow, open_fd-IsBelow, set_fd-IsBelow, close_fd-IsBelow, clear_fds-IsBelow,
  renumber_fd-IsBelow,
}

module _ {F W : Type 0} (close : F → W → Result (Unit {0}) × F × W) where
  pub data Step : FdTable F → FdTable F → Type 0 where
    opens :
        (fds : FdTable F) (file : F) (path : Bytes)
        → fds.next < last_fd
        → Step fds (open_fd file path fds).1
    sets :
        (fds : FdTable F) (fd : ℕ) (file : F) (path : Bytes)
        → fd < last_fd
        → Step fds (set_fd fd file path fds)
    closes : (fds : FdTable F) (fd : ℕ) (w : W) → Step fds (close_fd close fd fds w).1
    clears : (fds : FdTable F) (w : W) → Step fds (clear_fds close fds w).1
    renumbers :
        (fds : FdTable F) (from to : ℕ) (w : W) → Step fds (renumber_fd close from to fds w).1

  pub data Reach : FdTable F → Type 0 where
    new : Reach new_fds
    next : {fds fds' : FdTable F} → Reach fds → Step fds fds' → Reach fds'

module _ {F W : Type 0} (close : F → W → Result (Unit {0}) × F × W) where
  Step-IsBelow : {fds fds' : FdTable F} → Step close fds fds' → IsBelow fds → IsBelow fds'
  Step-IsBelow (opens fds file path h) v = open_fd-IsBelow file path fds h v
  Step-IsBelow (sets fds fd file path h) v = set_fd-IsBelow fd file path fds h v
  Step-IsBelow (closes fds fd w) v = close_fd-IsBelow close fd fds w v
  Step-IsBelow (clears fds w) v = clear_fds-IsBelow close fds w v
  Step-IsBelow (renumbers fds from to w) v = renumber_fd-IsBelow close from to fds w v

  Reach-IsBelow : {fds : FdTable F} → Reach close fds → IsBelow fds
  Reach-IsBelow new = record {
    standard = omega arith;
    below = λ fd f p. unfold Table.get in cc (p);
  }
  Reach-IsBelow (next r s) = Step-IsBelow s (Reach-IsBelow r)

  -- In every table that a task comes to, `open_fd` returns a descriptor that is not in use and not a
  -- standard one, and leaves all others as they are.
  pub open_fd-fresh :
      (file : F) (path : Bytes) (fds : FdTable F)
      → Reach close fds
      → (Table.get (open_fd file path fds).0 fds.files ≡ none)
        × (3 ≤ (open_fd file path fds).0)
        × ((fd : ℕ)
            → Table.get fd (open_fd file path fds).1.files ≡ (
                if (open_fd file path fds).0 == fd
                then some (record { file = file; path = path })
                else Table.get fd fds.files))
  unfolding open_fd
  open_fd-fresh file path fds r =
      let v = Reach-IsBelow r in (absent v, v.standard, λ fd. get-insert fds.next fd _ fds.files)
    where
      absent : IsBelow fds → Table.get fds.next fds.files ≡ none
      absent v = elim (Option-cases (Table.get fds.next fds.files)) [
        | inl e ↦ e
        | inr (f, e) ↦ absurd (omega (arith, v.below fds.next f e))
      ]
