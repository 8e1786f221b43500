-- ===== src/Task/Registry.antt =====
-- `TaskFs` of crates/star9-task/src/lib.rs: the tasks, by number and by alias, and their fields. What is
-- behind an `Arc` has an address: `allocated` is the next one. A driver is a trait object there, so the
-- type `D` of drivers is a parameter.
use star.Base.{
  ℕ, zero, suc, ◌+◌, [], Bytes, bytes_eq, codes, Option, none, some, if◌then◌else◌, decimal,
}
use star.Base.Table
use star.Base.Table.{Table}
use star.Core.Error.{Error, ErrorKind, Result, ok, err}
use star.Vfs.Map.{Map, lookup, put, delete}
use star.Vfs.Bindings.{Bindings}
use star.Task.Fds.{inc32}
use star.Task.State.{TaskState, empty, new_state, assign, value_of_field}

pub record TaskInner (D : Type 0) : Type 0 where
  pub driver : D
  pub parent : Option ℕ
  pub ns : ℕ
  pub id : ℕ
  pub state : TaskState

pub record TaskFs (D : Type 0) : Type 0 where
  pub drivers : Map D
  pub resources : Map ℕ
  pub aliases : Map ℕ
  pub next_id : ℕ
  pub tasks : Table (TaskInner D)
  pub spaces : Table Bindings
  pub allocated : ℕ

-- A number goes before an alias.
unfoldable pub lookup_in : Bytes → Option ℕ → Option ℕ → Result ℕ
lookup_in rid (some task) alias = ok task
lookup_in rid none (some task) = ok task
lookup_in rid none none = err (Error.path "lookup" rid ErrorKind.not_found)

module _ {D : Type 0} where
  abbrev pub new_tasks : D → TaskFs D
  new_tasks auto = record {
    drivers = put (codes "auto") auto [];
    resources = [];
    aliases = [];
    next_id = 0;
    tasks = [];
    spaces = [];
    allocated = 0;
  }

  unfoldable pub register : Bytes → D → TaskFs D → TaskFs D
  register kind driver s = record s { drivers = put kind driver s.drivers }

  -- The bindings that a new namespace starts with: those of the parent.
  unfoldable pub parent_bindings : Option ℕ → TaskFs D → Bindings
  parent_bindings none s = []
  parent_bindings (some parent) s = elim (Table.get parent s.tasks) [
    | none ↦ []
    | some task ↦ elim (Table.get task.ns s.spaces) [ none ↦ [] | some bindings ↦ bindings ]
  ]

  unfoldable pub namespace_for : Option ℕ → Option ℕ → TaskFs D → ℕ × TaskFs D
  unfolding parent_bindings
  namespace_for parent (some ns) s = (ns, s)
  namespace_for parent none s = (
    s.allocated,
    record s {
      spaces = Table.insert s.allocated (parent_bindings parent s) s.spaces;
      allocated = s.allocated + 1;
    },
  )

  -- What follows the driver's being found.
  unfoldable pub alloc_found : Bytes → Option ℕ → Option ℕ → D → TaskFs D → ℕ × TaskFs D
  unfolding namespace_for
  alloc_found kind parent namespace driver s =
      let id = inc32 s.next_id in
      let (ns, s') = namespace_for parent namespace s in
      let task : TaskInner D = record {
        driver = driver;
        parent = parent;
        ns = ns;
        id = id;
        state = new_state kind;
      } in
      (
        s'.allocated,
        record s' {
          next_id = id;
          tasks = Table.insert s'.allocated task s'.tasks;
          resources = put (decimal id) s'.allocated s'.resources;
          allocated = s'.allocated + 1;
        },
      )

  unfoldable pub alloc_with_driver :
      Bytes → Option ℕ → Option ℕ → Option D → TaskFs D → Result ℕ × TaskFs D
  unfolding alloc_found
  alloc_with_driver kind parent namespace none s = (err (Error.kind ErrorKind.not_found), s)
  alloc_with_driver kind parent namespace (some driver) s =
      let (task, s') = alloc_found kind parent namespace driver s in (ok task, s')

  unfoldable pub alloc_with_parent_and_namespace :
      Bytes → Option ℕ → Option ℕ → TaskFs D → Result ℕ × TaskFs D
  unfolding alloc_with_driver
  alloc_with_parent_and_namespace kind parent namespace s =
      alloc_with_driver kind parent namespace (lookup kind s.drivers) s

  unfoldable pub alloc : Bytes → Option ℕ → TaskFs D → Result ℕ × TaskFs D
  unfolding alloc_with_parent_and_namespace
  alloc kind none s = alloc_with_parent_and_namespace kind (lookup (codes "1") s.resources) none s
  alloc kind (some parent) s = alloc_with_parent_and_namespace kind (some parent) none s

  unfoldable pub alloc_with_namespace : Bytes → Option ℕ → ℕ → TaskFs D → Result ℕ × TaskFs D
  unfolding alloc_with_parent_and_namespace
  alloc_with_namespace kind parent ns s = alloc_with_parent_and_namespace kind parent (some ns) s

  -- `Arc::new(Namespace::new())`
  abbrev pub with_empty_namespace : TaskFs D → TaskFs D
  with_empty_namespace s = record s {
    spaces = Table.insert s.allocated [] s.spaces;
    allocated = s.allocated + 1;
  }

  unfoldable pub alloc_clean_namespace : Bytes → TaskFs D → Result ℕ × TaskFs D
  unfolding alloc_with_parent_and_namespace
  alloc_clean_namespace kind s =
      alloc_with_parent_and_namespace kind none (some s.allocated) (with_empty_namespace s)

  unfoldable pub parent_in : Option (TaskInner D) → Option ℕ
  parent_in none = none
  parent_in (some task) = task.parent

  unfoldable pub parent : ℕ → TaskFs D → Option ℕ
  unfolding parent_in
  parent r s = parent_in (Table.get r s.tasks)

  -- The loop of `root`, with a number of steps after which it is given up.
  unfoldable pub root : ℕ → ℕ → TaskFs D → Option ℕ
  unfolding parent
  root zero r s = none
  root (suc fuel) r s = elim (parent r s) [ none ↦ some r | some p ↦ root fuel p s ]

  unfoldable pub lookup_task : Bytes → TaskFs D → Result ℕ
  unfolding lookup_in
  lookup_task rid s = lookup_in rid (lookup rid s.resources) (lookup rid s.aliases)

  unfoldable pub update_alias : ℕ → Bytes → Bytes → TaskFs D → TaskFs D
  update_alias task old new s =
      let removed = if bytes_eq old empty then s.aliases else delete old s.aliases in
      let added = if bytes_eq new empty then removed else put new task removed in
      record s { aliases = added }

  -- The state's fields are replaced, if the name is that of one.
  unfoldable pub set_state :
      ℕ → TaskInner D → Bytes → Bytes → Option TaskState → TaskFs D → Result (Unit {0}) × TaskFs D
  unfolding update_alias
  set_state r task name value none s = (err (Error.kind ErrorKind.invalid), s)
  set_state r task name value (some state) s =
      let s' = record s { tasks = Table.insert r (record task { state = state }) s.tasks } in
      (
        ok tt,
        if bytes_eq name (codes "alias") then update_alias r task.state.alias value s' else s',
      )

  -- A task is behind its address at all times.
  unfoldable pub set_at :
      ℕ → Option (TaskInner D) → Bytes → Bytes → TaskFs D → Result (Unit {0}) × TaskFs D
  unfolding set_state assign
  set_at r none name value s = (err (Error.kind ErrorKind.invalid), s)
  set_at r (some task) name value s = set_state r task name value (assign name value task.state) s

  unfoldable pub set_field : ℕ → Bytes → Bytes → TaskFs D → Result (Unit {0}) × TaskFs D
  unfolding set_at
  set_field r name value s = set_at r (Table.get r s.tasks) name value s

  unfoldable pub value_at : Bytes → Option (TaskInner D) → Result Bytes
  unfolding value_of_field
  value_at name none = err (Error.kind ErrorKind.invalid)
  value_at name (some task) = value_of_field task.id name task.state

  unfoldable pub field_value : ℕ → Bytes → TaskFs D → Result Bytes
  unfolding value_at
  field_value r name s = value_at name (Table.get r s.tasks)
