-- ===== src/Task/Numbers.antt =====
-- What a new task of crates/star9-task/src/lib.rs is found by.
use star.Base.{
  ℕ, ◌+◌, ◌<◌, ◌≡◌, refl, Bool, true, false, ==_refl, Bytes, bytes_eq, codes, Option, none, some,
  if◌then◌else◌, arith, decimal,
}
use star.Base.Table
use star.Base.Table.{Table, get-insert}
use star.Core.Error.{ok, ok-injective}
use star.Vfs.Map.{lookup, lookup-put}
use star.Task.State.{value_of_field}
use star.Task.Registry.{
  TaskFs, namespace_for, alloc_found, alloc_with_driver, alloc_with_parent_and_namespace,
  lookup_task, lookup_in, value_at, field_value,
}
use star.Task.Fds.{last_fd}
use star.Task.Runs.{Reach, Reach-IsNumbered}
use star.Task.Numbered.{next_number, namespace_for-SameTasks, IsNumbered}

found_under :
    (b : Bool) (rid : Bytes) (r : ℕ) (o alias : Option ℕ)
    → lookup_in rid (if b then some r else o) alias ≡ (if b then ok r else lookup_in rid o alias)
unfolding lookup_in
found_under true rid r o alias = refl
found_under false rid r o alias = refl

module _ {D : Type 0} where
  -- What `alloc` promises of the new task `r`, of a name `rid` and of the store `s'` behind it.
  abbrev IsNew : Bytes → ℕ → TaskFs D → TaskFs D → Type 0
  IsNew rid r s s' =
      (lookup (decimal (s.next_id + 1)) s.resources ≡ none)
      × (Table.get r s.tasks ≡ none)
      × (field_value r (codes "id") s' ≡ ok (decimal (s.next_id + 1)))
      × (lookup_task rid s'
          ≡ (if bytes_eq (decimal (s.next_id + 1)) rid then ok r else lookup_task rid s))

  alloc_found-IsNew :
      (kind rid : Bytes) (parent namespace : Option ℕ) (driver : D) (s : TaskFs D)
      → s.next_id < last_fd
      → IsNumbered s
      → IsNew rid
          (alloc_found kind parent namespace driver s).0
          s
          (alloc_found kind parent namespace driver s).1
  unfolding alloc_found lookup_task field_value value_at value_of_field bytes_eq
  alloc_found-IsNew kind rid parent namespace driver s h v =
      let same = namespace_for-SameTasks parent namespace s in
      let r = (namespace_for parent namespace s).1.allocated in
      let n = next_number s.next_id h in
      (
        v.numbers (s.next_id + 1) (omega arith),
        v.addresses r same.grows,
        rw (get-insert r r _ _, ==_refl r, n) refl,
        rw (same.aliases, same.resources, n, lookup-put (decimal (s.next_id + 1)) rid r s.resources)
            (found_under (bytes_eq (decimal (s.next_id + 1)) rid) rid r (lookup rid s.resources)
              (lookup rid s.aliases)),
      )

  alloc_with_driver-IsNew :
      (kind rid : Bytes) (parent namespace : Option ℕ) (o : Option D) (s : TaskFs D) (r : ℕ)
      → s.next_id < last_fd
      → IsNumbered s
      → (alloc_with_driver kind parent namespace o s).0 ≡ ok r
      → IsNew rid r s (alloc_with_driver kind parent namespace o s).1
  unfolding alloc_with_driver
  alloc_with_driver-IsNew kind rid parent namespace none s r h v e = absurd (cc (e))
  alloc_with_driver-IsNew kind rid parent namespace (some driver) s r h v e =
      ok-injective e (λ q. IsNew rid q s (alloc_found kind parent namespace driver s).1)
        (alloc_found-IsNew kind rid parent namespace driver s h v)

  -- In every reachable store, an allocation that succeeds makes a task at an address that is not in use,
  -- whose number no task had and which the task has as its id. From then on the number finds that task,
  -- and every other name finds what it found before.
  pub alloc-fresh :
      (kind rid : Bytes) (parent namespace : Option ℕ) (s : TaskFs D) (r : ℕ)
      → Reach s
      → s.next_id < last_fd
      → (alloc_with_parent_and_namespace kind parent namespace s).0 ≡ ok r
      → (lookup (decimal (s.next_id + 1)) s.resources ≡ none)
        × (Table.get r s.tasks ≡ none)
        × (field_value r (codes "id") (alloc_with_parent_and_namespace kind parent namespace s).1
            ≡ ok (decimal (s.next_id + 1)))
        × (lookup_task rid (alloc_with_parent_and_namespace kind parent namespace s).1
            ≡ (if bytes_eq (decimal (s.next_id + 1)) rid then ok r else lookup_task rid s))
  unfolding alloc_with_parent_and_namespace
  alloc-fresh kind rid parent namespace s r reach h e =
      alloc_with_driver-IsNew kind rid parent namespace (lookup kind s.drivers) s r h
        (Reach-IsNumbered reach) e
