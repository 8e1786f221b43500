-- ===== src/Task/Runs.antt =====
-- The stores of tasks that crates/star9-task/src/lib.rs comes to, as long as fewer than 2 ^ 32 tasks are
-- made.
use star.Base.{ℕ, ◌<◌, refl, Bytes, Option, none, some, arith}
use star.Base.Table
use star.Base.Table.{Table, get-insert}
use star.Vfs.Map.{lookup}
use star.Task.Fds.{last_fd}
use star.Task.Registry.{
  TaskFs, new_tasks, register, alloc_with_parent_and_namespace, alloc_clean_namespace,
  with_empty_namespace, set_field,
}
use star.Task.Numbered.{IsThere, IsNumbered, alloc_with_driver-IsNumbered, set_at-IsNumbered}

module _ {D : Type 0} where
  pub data Step : TaskFs D → TaskFs D → Type 0 where
    registers : (s : TaskFs D) (kind : Bytes) (driver : D) → Step s (register kind driver s)
    allocates :
        (s : TaskFs D) (kind : Bytes) (parent namespace : Option ℕ)
        → s.next_id < last_fd
        → IsThere parent s
        → Step s (alloc_with_parent_and_namespace kind parent namespace s).1
    allocates_clean :
        (s : TaskFs D) (kind : Bytes)
        → s.next_id < last_fd
        → Step s (alloc_clean_namespace kind s).1
    sets : (s : TaskFs D) (r : ℕ) (name value : Bytes) → Step s (set_field r name value s).1

  pub data Reach : TaskFs D → Type 0 where
    new : (auto : D) → Reach (new_tasks auto)
    next : {s s' : TaskFs D} → Reach s → Step s s' → Reach s'

  Step-IsNumbered : {s s' : TaskFs D} → Step s s' → IsNumbered s → IsNumbered s'
  unfolding IsThere register alloc_clean_namespace alloc_with_parent_and_namespace set_field
  Step-IsNumbered (registers s kind driver) v = record {
    numbers = v.numbers;
    addresses = v.addresses;
    ancestors = v.ancestors;
  }
  Step-IsNumbered (allocates s kind parent namespace h there_p) v =
      alloc_with_driver-IsNumbered kind parent namespace (lookup kind s.drivers) s h there_p v
  Step-IsNumbered (allocates_clean s kind h) v =
      alloc_with_driver-IsNumbered kind none (some s.allocated) (lookup kind s.drivers)
        (with_empty_namespace s) h tt
        (record {
          numbers = v.numbers;
          addresses = λ q k. v.addresses q (omega (arith, k));
          ancestors = v.ancestors;
        })
  Step-IsNumbered (sets s r name value) v =
      set_at-IsNumbered r (Table.get r s.tasks) name value s refl v

  pub Reach-IsNumbered : {s : TaskFs D} → Reach s → IsNumbered s
  Reach-IsNumbered (new auto) = record {
    numbers = λ id h. unfold lookup in refl;
    addresses = λ q h. unfold Table.get in refl;
    ancestors = λ q p task h e. unfold Table.get in cc (h);
  }
  Reach-IsNumbered (next r t) = Step-IsNumbered t (Reach-IsNumbered r)
