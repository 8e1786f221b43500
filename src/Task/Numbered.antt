-- ===== src/Task/Numbered.antt =====
-- The numbers and addresses of the tasks in a store of crates/star9-task/src/lib.rs.
use star.Base.{
  ℕ, ◌+◌, ◌≤◌, ◌<◌, ◌≡◌, refl, ap, sym, ◌∙◌, Bool, true, false, ◌==◌, leb, ==_iff, List, Bytes,
  bytes_eq, bytes_eq_iff, codes, Option, none, some, if◌then◌else◌, arith, Bool-cases, inl, inr,
  decimal, decimal-injective,
}
use star.Base.Table
use star.Base.Table.{Table, get-insert}
use star.Vfs.Map.{lookup, put, lookup-put}
use star.Task.Fds.{last_fd, inc32}
use star.Task.State.{TaskState}
use star.Task.Registry.{
  TaskInner, TaskFs, namespace_for, alloc_found, alloc_with_driver, update_alias, set_state, set_at,
}

pub next_number : (n : ℕ) → n < last_fd → inc32 n ≡ n + 1
next_number n h = omega (arith, h)

decimal-differ : (m n : ℕ) → m < n → bytes_eq (decimal m) (decimal n) ≡ false
decimal-differ m n h = elim (Bool-cases (bytes_eq (decimal m) (decimal n))) [
  | inl e ↦
      absurd (omega (arith, decimal-injective m n ((bytes_eq_iff (decimal m) (decimal n)).0 e), h))
  | inr e ↦ e
]

put-free :
    (n id r : ℕ) (t : List (Bytes × ℕ))
    → n < id
    → lookup (decimal id) t ≡ none
    → lookup (decimal id) (put (decimal n) r t) ≡ none
put-free n id r t h e = rw (lookup-put (decimal n) (decimal id) r t, decimal-differ n id h) e

module _ {D : Type 0} where
  -- A parent is a task that was made.
  unfoldable pub IsThere : Option ℕ → TaskFs D → Type 0
  IsThere none s = Unit {0}
  IsThere (some p) s = p < s.allocated

  -- No task has a number or an address that is still to come, and a parent is older than its children.
  pub record IsNumbered (s : TaskFs D) : Type 0 where
    pub numbers : (id : ℕ) → s.next_id < id → lookup (decimal id) s.resources ≡ none
    pub addresses : (q : ℕ) → s.allocated ≤ q → Table.get q s.tasks ≡ none
    pub ancestors :
        (q p : ℕ) (task : TaskInner D)
        → Table.get q s.tasks ≡ some task
        → task.parent ≡ some p
        → p < q

  -- Only the bindings and the next address are changed by a new namespace.
  pub record SameTasks (s s' : TaskFs D) : Type 0 where
    pub resources : s'.resources ≡ s.resources
    pub aliases : s'.aliases ≡ s.aliases
    pub tasks : s'.tasks ≡ s.tasks
    pub grows : s.allocated ≤ s'.allocated

  pub namespace_for-SameTasks :
      (parent namespace : Option ℕ) (s : TaskFs D)
      → SameTasks s (namespace_for parent namespace s).1
  unfolding namespace_for
  namespace_for-SameTasks parent (some ns) s = record {
    resources = refl;
    aliases = refl;
    tasks = refl;
    grows = omega arith;
  }
  namespace_for-SameTasks parent none s = record {
    resources = refl;
    aliases = refl;
    tasks = refl;
    grows = omega arith;
  }

  insert-unused :
      (r q : ℕ) (task : TaskInner D) (t : Table (TaskInner D))
      → r < q
      → Table.get q t ≡ none
      → Table.get q (Table.insert r task t) ≡ none
  insert-unused r q task t h e =
      let differ : (r == q) ≡ false = ground (arith, h, ==_iff r q) in
      rw (get-insert r q task t, differ) e

  insert-ancestors :
      (r : ℕ) (task : TaskInner D) (t : Table (TaskInner D))
      → ((q p : ℕ) (child : TaskInner D)
          → Table.get q t ≡ some child
          → child.parent ≡ some p
          → p < q)
      → ((p : ℕ) → task.parent ≡ some p → p < r)
      → (q p : ℕ) (child : TaskInner D) → Table.get q (Table.insert r task t) ≡ some child
      → child.parent ≡ some p
      → p < q
  insert-ancestors r task t v own q p child h e = elim (Bool-cases (r == q)) [
    | inl same ↦
        let it : some task ≡ some child = rw (get-insert r q task t, same) at h in
        let parents : task.parent ≡ child.parent =
          ap (λ o. elim o [ none ↦ none | some x ↦ x.parent ]) it in
        omega (arith, own p (parents ∙ e), (==_iff r q).0 same)
    | inr other ↦ v q p child (rw (get-insert r q task t, other) at h) e
  ]

  there : (o : Option ℕ) (s : TaskFs D) → IsThere o s → (p : ℕ) → o ≡ some p → p < s.allocated
  unfolding IsThere
  there none s h p e = absurd (cc (e))
  there (some q) s h p e = let same : q ≡ p = cc (e) in omega (arith, h, same)

  alloc_found-IsNumbered :
      (kind : Bytes) (parent namespace : Option ℕ) (driver : D) (s : TaskFs D)
      → s.next_id < last_fd
      → IsThere parent s
      → IsNumbered s
      → IsNumbered (alloc_found kind parent namespace driver s).1
  unfolding alloc_found
  alloc_found-IsNumbered kind parent namespace driver s h there_p v =
      let same = namespace_for-SameTasks parent namespace s in
      let n = next_number s.next_id h in
      record {
        numbers = λ id k.
            put-free (inc32 s.next_id) id _ _ k
              (rw same.resources (v.numbers id (omega (arith, k, n))));
        addresses = λ q k.
            insert-unused _ q _ _ (omega (arith, k))
              (rw same.tasks (v.addresses q (omega (arith, k, same.grows))));
        ancestors =
            insert-ancestors _ _ _ (λ q p task. rw same.tasks (v.ancestors q p task))
              (λ p e. omega (arith, there parent s there_p p e, same.grows));
      }

  pub alloc_with_driver-IsNumbered :
      (kind : Bytes) (parent namespace : Option ℕ) (o : Option D) (s : TaskFs D)
      → s.next_id < last_fd
      → IsThere parent s
      → IsNumbered s
      → IsNumbered (alloc_with_driver kind parent namespace o s).1
  unfolding alloc_with_driver
  alloc_with_driver-IsNumbered kind parent namespace none s h there_p v = v
  alloc_with_driver-IsNumbered kind parent namespace (some driver) s h there_p v =
      alloc_found-IsNumbered kind parent namespace driver s h there_p v

  update_alias-IsNumbered :
      (b : Bool) (r : ℕ) (old name : Bytes) (s : TaskFs D)
      → IsNumbered s
      → IsNumbered (if b then update_alias r old name s else s)
  unfolding update_alias
  update_alias-IsNumbered true r old name s v = record {
    numbers = v.numbers;
    addresses = v.addresses;
    ancestors = v.ancestors;
  }
  update_alias-IsNumbered false r old name s v = v

  set_state-IsNumbered :
      (r : ℕ) (task : TaskInner D) (name value : Bytes) (o : Option TaskState) (s : TaskFs D)
      → Table.get r s.tasks ≡ some task
      → IsNumbered s
      → IsNumbered (set_state r task name value o s).1
  unfolding set_state
  set_state-IsNumbered r task name value none s e v = v
  set_state-IsNumbered r task name value (some state) s e v =
      update_alias-IsNumbered (bytes_eq name (codes "alias")) r task.state.alias value _ (record {
        numbers = v.numbers;
        addresses = λ q k.
            insert-unused r q (record task { state = state }) s.tasks (below q k) (v.addresses q k);
        ancestors =
            insert-ancestors r (record task { state = state }) s.tasks v.ancestors
              (λ p. v.ancestors r p task e);
      })
    where
      below : (q : ℕ) → s.allocated ≤ q → r < q
      below q k = elim (Bool-cases (leb s.allocated r)) [
        | inl old ↦
            let none-some : ◌≡◌ {A = Option (TaskInner D)} none (some task) =
              sym (v.addresses r (ground (arith, old))) ∙ e in
            cc (none-some)
        | inr old ↦ ground (arith, old, k)
      ]

  pub set_at-IsNumbered :
      (r : ℕ) (o : Option (TaskInner D)) (name value : Bytes) (s : TaskFs D)
      → Table.get r s.tasks ≡ o
      → IsNumbered s
      → IsNumbered (set_at r o name value s).1
  unfolding set_at
  set_at-IsNumbered r none name value s e v = v
  set_at-IsNumbered r (some task) name value s e v = set_state-IsNumbered r task name value _ s e v
