-- ===== src/Task/Root.antt =====
-- The way from a task of crates/star9-task/src/lib.rs to its root.
use star.Base.{ℕ, zero, suc, ◌≤◌, ◌<◌, ◌≡◌, refl, none, some, arith, Option-cases, inl, inr}
use star.Base.Table
use star.Base.Table.{Table}
use star.Task.Registry.{TaskFs, parent, parent_in, root}
use star.Task.Runs.{Reach, Reach-IsNumbered}
use star.Task.Numbered.{IsNumbered}

module _ {D : Type 0} where
  older : (s : TaskFs D) → IsNumbered s → (q p : ℕ) → parent q s ≡ some p → p < q
  unfolding parent parent_in
  older s v q p e = elim (Option-cases (Table.get q s.tasks)) [
    | inl h ↦ absurd (cc (rw h at e))
    | inr (task, h) ↦ v.ancestors q p task h (rw h at e)
  ]

  root_from :
      (fuel r : ℕ) (s : TaskFs D)
      → IsNumbered s
      → r < fuel
      → (t : ℕ) × (root fuel r s ≡ some t) × (parent t s ≡ none) × (t ≤ r)
  unfolding root
  root_from zero r s v h = absurd (omega (arith, h))
  root_from (suc fuel) r s v h = elim (Option-cases (parent r s)) [
    | inl e ↦ (r, rw (root, e) refl, e, omega arith)
    | inr (p, e) ↦
        let below = older s v r p e in
        let (t, found, top, le) = root_from fuel p s v (omega (arith, h, below)) in
        (t, rw (root, e) found, top, omega (arith, le, below))
  ]

  -- In every reachable store the loop of `root` ends: from a task at the address `r` it comes, in at most
  -- `r` steps up, to a task without a parent, which is no younger than the one it started from.
  pub root-total :
      (fuel r : ℕ) (s : TaskFs D)
      → Reach s
      → r < fuel
      → (t : ℕ) × (root fuel r s ≡ some t) × (parent t s ≡ none) × (t ≤ r)
  root-total fuel r s reach h = root_from fuel r s (Reach-IsNumbered reach) h
