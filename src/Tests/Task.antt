-- ===== src/Tests/Task.antt =====
-- Descriptors and tasks of crates/star9-task/src/lib.rs at concrete inputs.
use star.Base.{
  ℕ, ◌+◌, ◌≤◌, ◌≡◌, refl, arith, ◌==◌, not, ◌&&◌, [], Bytes, bytes_eq, codes, none, some,
  if◌then◌else◌, decimal,
}
use star.Base.Table
use star.Core.Error.{Error, ErrorKind, Result, ok, err}
use star.Vfs.Map.{lookup, put, delete}
use star.Task.Fds.{FdTable, new_fds, open_fd, fd_path, renumber_fd}
use star.Task.Reach
use star.Task.Renumber.{renumber_fd-Moved, renumber_fd-failed}
use star.Task.State.{new_state}
use star.Task.Registry.{
  TaskInner, TaskFs, parent, root, update_alias, new_tasks, alloc_with_parent_and_namespace,
  lookup_task, lookup_in, set_field, field_value,
}
use star.Task.Runs
use star.Task.Numbered.{IsThere}
use star.Task.Numbers.{alloc-fresh}
use star.Task.Root.{root-total}
use star.Task.Fields.{field_value-set_field, lookup_task-set_alias}

-- A file is its name; one of the name "bad" does not close. The state counts the files closed.
abbrev close_named : Bytes → ℕ → Result (Unit {0}) × Bytes × ℕ
close_named file closed =
    if bytes_eq file (codes "bad")
    then (err (Error.kind ErrorKind.other), codes "torn", closed)
    else (ok tt, file, closed + 1)

abbrev one_open : FdTable Bytes
one_open = (open_fd (codes "log") (codes "a/log") new_fds).1

abbrev two_open : FdTable Bytes
two_open = (open_fd (codes "bad") (codes "b") one_open).1

abbrev two_logs : FdTable Bytes
two_logs = (open_fd (codes "new") (codes "b") one_open).1

one_open-Reach : Reach.Reach close_named one_open
one_open-Reach =
    Reach.Reach.next Reach.Reach.new
      (Reach.Step.opens new_fds (codes "log") (codes "a/log") (omega arith))

open_fd-fresh_example :
    (Table.get (open_fd (codes "bad") (codes "b") one_open).0 one_open.files ≡ none)
    × (3 ≤ (open_fd (codes "bad") (codes "b") one_open).0)
    × ((fd : ℕ)
        → Table.get fd two_open.files ≡ (
            if (open_fd (codes "bad") (codes "b") one_open).0 == fd
            then some (record { file = codes "bad"; path = codes "b" })
            else Table.get fd one_open.files))
open_fd-fresh_example =
    Reach.open_fd-fresh close_named (codes "bad") (codes "b") one_open one_open-Reach

renumber_fd-Moved_example :
    Table.get 3 (renumber_fd close_named 4 3 two_logs 0).1.files ≡ Table.get 4 two_logs.files
unfolding renumber_fd Table.get Table.insert Table.remove open_fd bytes_eq
renumber_fd-Moved_example = renumber_fd-Moved close_named 4 3 two_logs 0 refl 3

renumber_fd-failed_example :
    fd_path 4 (renumber_fd close_named 3 4 two_open 0).1 ≡ fd_path 4 two_open
unfolding renumber_fd Table.get Table.insert Table.remove open_fd bytes_eq
renumber_fd-failed_example =
    renumber_fd-failed close_named 3 4 4 two_open 0 (Error.kind ErrorKind.other) refl

abbrev empty_store : TaskFs ℕ
empty_store = new_tasks 7

abbrev auto : Bytes
auto = codes "auto"

abbrev first_task : Result ℕ × TaskFs ℕ
first_task = alloc_with_parent_and_namespace auto none none empty_store

abbrev two_tasks : TaskFs ℕ
two_tasks = (alloc_with_parent_and_namespace auto (some 1) none first_task.1).1

first_task-Reach : Runs.Reach first_task.1
first_task-Reach =
    Runs.Reach.next (Runs.Reach.new 7)
      (Runs.Step.allocates empty_store auto none none (omega arith) (unfold IsThere in tt))

-- The second task, in a namespace of its own.
alloc-fresh_example :
    (lookup (decimal 2) first_task.1.resources ≡ none)
    × (Table.get 3 first_task.1.tasks ≡ none)
    × (field_value 3 (codes "id") two_tasks ≡ ok (decimal 2))
    × (lookup_task (codes "1") two_tasks
        ≡ (if bytes_eq (decimal 2) (codes "1") then ok 3 else lookup_task (codes "1") first_task.1))
unfolding alloc_with_parent_and_namespace lookup put bytes_eq
alloc-fresh_example =
    alloc-fresh auto (codes "1") (some 1) none first_task.1 3 first_task-Reach (omega arith) refl

two_tasks-Reach : Runs.Reach two_tasks
unfolding IsThere alloc_with_parent_and_namespace lookup put bytes_eq
two_tasks-Reach =
    Runs.Reach.next first_task-Reach
      (Runs.Step.allocates first_task.1 auto (some 1) none (omega arith) (omega arith))

root-total_example : (t : ℕ) × (root 4 3 two_tasks ≡ some t) × (parent t two_tasks ≡ none) × (t ≤ 3)
root-total_example = root-total 4 3 two_tasks two_tasks-Reach (omega arith)

field_value-set_field_example :
    (field_value 1 (codes "cmd") (set_field 1 (codes "cmd") (codes "ls") two_tasks).1
      ≡ ok (codes "ls"))
    × (field_value 3 (codes "cmd") (set_field 1 (codes "cmd") (codes "ls") two_tasks).1
        ≡ field_value 3 (codes "cmd") two_tasks)
unfolding set_field alloc_with_parent_and_namespace lookup Table.get Table.insert Table.remove
    bytes_eq put
field_value-set_field_example =
    field_value-set_field 1 3 (codes "cmd") (codes "ls") (codes "cmd") two_tasks
      (λ e. omega (arith, e)) refl

abbrev aliased : TaskFs ℕ
aliased = (set_field 1 (codes "alias") (codes "db") two_tasks).1

-- The task 3 takes the alias of 1 over, and 1 takes it away by giving its own alias up.
abbrev taken : TaskFs ℕ
taken = (set_field 3 (codes "alias") (codes "db") aliased).1

abbrev first_inner : TaskInner ℕ
first_inner = record {
  driver = 7;
  parent = none;
  ns = 0;
  id = 1;
  state = record (new_state auto) { alias = codes "db" };
}

lookup_task-set_alias_example :
    lookup_task (codes "db") (set_field 1 (codes "alias") (codes "web") taken).1
    ≡ lookup_in (codes "db") (lookup (codes "db") taken.resources) (
        if not (bytes_eq (codes "web") []) && bytes_eq (codes "web") (codes "db")
        then some 1
        else if not (bytes_eq first_inner.state.alias [])
            && bytes_eq first_inner.state.alias (codes "db")
        then none
        else lookup (codes "db") taken.aliases)
unfolding set_field alloc_with_parent_and_namespace lookup Table.get Table.insert Table.remove
    bytes_eq put
lookup_task-set_alias_example =
    lookup_task-set_alias 1 first_inner (codes "web") (codes "db") taken refl

-- The alias of the task 3 is lost.
taken_before : lookup_task (codes "db") taken ≡ ok 3
unfolding set_field alloc_with_parent_and_namespace lookup Table.get Table.insert Table.remove
    bytes_eq put lookup_task update_alias decimal star.Vfs.Map.bytes_lt
taken_before = refl

lost_after :
    lookup_task (codes "db") (set_field 1 (codes "alias") (codes "web") taken).1
    ≡ err (Error.path "lookup" (codes "db") ErrorKind.not_found)
unfolding set_field alloc_with_parent_and_namespace lookup Table.get Table.insert Table.remove
    bytes_eq put delete lookup_task update_alias decimal star.Vfs.Map.bytes_lt
lost_after = refl
