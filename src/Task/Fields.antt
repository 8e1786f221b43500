-- ===== src/Task/Fields.antt =====
-- What `set_field` of crates/star9-task/src/lib.rs means for `field_value`.
use star.Base.{
  ℕ, ◌≡◌, ◌≢◌, refl, ap, subst, subst, sym, ◌∙◌, Bool, true, false, not, ◌&&◌, ◌==◌, ==_iff,
  ==_refl, Bytes, bytes_eq, bytes_eq_iff, codes, Option, none, some, if◌then◌else◌, arith,
  Bool-cases, inl, inr,
}
use star.Base.Table
use star.Base.Table.{Table, get-insert}
use star.Core.Error.{ok}
use star.Vfs.Map.{lookup, delete, lookup-put, lookup-delete}
use star.Task.State.{TaskState, empty, lines, join_lines, assign, value_of_field}
use star.Task.Registry.{
  lookup_in, lookup_task, TaskInner, TaskFs, update_alias, set_state, set_at, set_field, value_at,
  field_value,
}

or_default : {A : Type 0} → A → Option A → A
or_default a none = a
or_default a (some b) = b

along : {A : Type 0} (P : A → Type 0) (a b : A) → some a ≡ some b → P a → P b
unfolding or_default
along P a b h p = subst P (ap (or_default a) h) p

-- What an assignment to a field makes of the field.
abbrev pub stored : Bytes → Bytes → Bytes
stored name value = if bytes_eq name (codes "env") then join_lines (lines value) else value

module _ (id : ℕ) (value : Bytes) (state : TaskState) where
  -- A field that was assigned reads as what was stored.
  abbrev Reads : Bytes → Type 0
  Reads name =
      (state' : TaskState)
      → assign name value state ≡ some state'
      → value_of_field id name state' ≡ ok (stored name value)

  at_field : (field name : Bytes) → bytes_eq name field ≡ true → Reads field → Reads name
  at_field field name e = subst Reads (sym ((bytes_eq_iff name field).0 e))

  or_field :
      (field name : Bytes) → Reads field → (bytes_eq name field ≡ false → Reads name) → Reads name
  or_field field name reads other = elim (Bool-cases (bytes_eq name field)) [
    | inl e ↦ at_field field name e reads
    | inr e ↦ other e
  ]

  reads_as :
      (field new : Bytes) (o : TaskState)
      → value_of_field id field o ≡ ok new
      → (t : TaskState) → some o ≡ some t
      → value_of_field id field t ≡ ok new
  reads_as field new o p t h = along (λ t. value_of_field id field t ≡ ok new) o t h p

  value_of_field-assign : (name : Bytes) → Reads name
  unfolding assign value_of_field bytes_eq
  value_of_field-assign name =
      or_field (codes "cmd") name (reads_as (codes "cmd") value _ refl) (λ not_cmd.
        or_field (codes "alias") name (reads_as (codes "alias") value _ refl) (λ not_alias.
          or_field (codes "env") name (reads_as (codes "env") (join_lines (lines value)) _ refl)
            (λ not_env.
              or_field (codes "dir") name (reads_as (codes "dir") value _ refl) (λ not_dir.
                or_field (codes "exit") name (reads_as (codes "exit") value _ refl) (λ not_exit t h.
                  cc (rw (not_cmd, not_alias, not_env, not_dir, not_exit) at h))))))

module _ {D : Type 0} where
  choose_tasks :
      (b : Bool) (s s' : TaskFs D) → s.tasks ≡ s'.tasks → (if b then s else s').tasks ≡ s'.tasks
  choose_tasks true s s' h = h
  choose_tasks false s s' h = refl

  -- What a task reads as, after its inner part was replaced.
  field_of :
      (r q : ℕ) (other : Bytes) (task : TaskInner D) (s s' : TaskFs D)
      → s'.tasks ≡ Table.insert r task s.tasks
      → field_value q other s'
        ≡ (if r == q then value_of_field task.id other task.state else field_value q other s)
  unfolding field_value value_at
  field_of r q other task s s' h =
      ap (λ t. value_at other (Table.get q t)) h
      ∙ rw (get-insert r q task s.tasks) (choose (r == q))
    where
      choose :
          (b : Bool)
          → value_at other (if b then some task else Table.get q s.tasks) ≡ (
              if b
              then value_of_field task.id other task.state
              else value_at other (Table.get q s.tasks))
      choose true = refl
      choose false = refl

  pub set_state-tasks :
      (r : ℕ) (task : TaskInner D) (name value : Bytes) (state : TaskState) (s : TaskFs D)
      → (set_state r task name value (some state) s).1.tasks
        ≡ Table.insert r (record task { state = state }) s.tasks
  unfolding set_state update_alias
  set_state-tasks r task name value state s = elim (Bool-cases (bytes_eq name (codes "alias"))) [
    | inl e ↦ rw e refl
    | inr e ↦ rw e refl
  ]

  set_state-reads :
      (r q : ℕ) (task : TaskInner D) (name value other : Bytes) (o : Option TaskState)
      (s : TaskFs D)
      → r ≢ q
      → assign name value task.state ≡ o
      → (set_state r task name value o s).0 ≡ ok tt
      → (field_value r name (set_state r task name value o s).1 ≡ ok (stored name value))
        × (field_value q other (set_state r task name value o s).1 ≡ field_value q other s)
  unfolding set_state
  set_state-reads r q task name value other none s ne e h = absurd (cc (h))
  set_state-reads r q task name value other (some state) s ne e h =
      let after = (set_state r task name value (some state) s).1 in
      let task' : TaskInner D = record task { state = state } in
      let tasks = set_state-tasks r task name value state s in
      let own = field_of r r name task' s after tasks in
      let others = field_of r q other task' s after tasks in
      let differ : (r == q) ≡ false = ground (arith, ne, ==_iff r q) in
      (
        own ∙ rw (==_refl r) (value_of_field-assign task.id value task.state name state e),
        others ∙ rw differ refl,
      )

  set_at-reads :
      (r q : ℕ) (o : Option (TaskInner D)) (name value other : Bytes) (s : TaskFs D)
      → r ≢ q
      → (set_at r o name value s).0 ≡ ok tt
      → (field_value r name (set_at r o name value s).1 ≡ ok (stored name value))
        × (field_value q other (set_at r o name value s).1 ≡ field_value q other s)
  unfolding set_at
  set_at-reads r q none name value other s ne h = absurd (cc (h))
  set_at-reads r q (some task) name value other s ne h =
      set_state-reads r q task name value other (assign name value task.state) s ne refl h

  -- A write to a field of a task that succeeds is what the field reads as from then on, but for the
  -- environment, of which the lines are kept; and it changes no field of any other task.
  pub field_value-set_field :
      (r q : ℕ) (name value other : Bytes) (s : TaskFs D)
      → r ≢ q
      → (set_field r name value s).0 ≡ ok tt
      → (field_value r name (set_field r name value s).1 ≡ ok (stored name value))
        × (field_value q other (set_field r name value s).1 ≡ field_value q other s)
  unfolding set_field
  field_value-set_field r q name value other s =
      set_at-reads r q (Table.get r s.tasks) name value other s

  update_alias-aliases :
      (r : ℕ) (old new rid : Bytes) (s : TaskFs D)
      → lookup rid (update_alias r old new s).aliases ≡ (
          if not (bytes_eq new empty) && bytes_eq new rid
          then some r
          else if not (bytes_eq old empty) && bytes_eq old rid
          then none
          else lookup rid s.aliases)
  unfolding update_alias
  update_alias-aliases r old new rid s =
      let put = lookup-put new rid r s.aliases in
      let gone = lookup-delete old rid s.aliases in
      let both = lookup-put new rid r (delete old s.aliases) in ground (arith, put, gone, both)

  -- A task that is given an alias is found by it from then on, and no task by the alias that it had
  -- before, whichever task that alias belonged to last; a number still goes before an alias, an empty
  -- alias is none, and all other names find what they found before.
  pub lookup_task-set_alias :
      (r : ℕ) (task : TaskInner D) (new rid : Bytes) (s : TaskFs D)
      → Table.get r s.tasks ≡ some task
      → lookup_task rid (set_field r (codes "alias") new s).1
        ≡ lookup_in rid (lookup rid s.resources) (
            if not (bytes_eq new empty) && bytes_eq new rid
            then some r
            else if not (bytes_eq task.state.alias empty) && bytes_eq task.state.alias rid
            then none
            else lookup rid s.aliases)
  unfolding lookup_task set_field set_at set_state assign update_alias bytes_eq
  lookup_task-set_alias r task new rid s h = rw h (
      ap (lookup_in rid (lookup rid s.resources))
        (update_alias-aliases r task.state.alias new rid s))
