-- ===== src/Base/Table.antt =====
-- `HashMap` with numbers as keys. No code that is modelled goes over its entries, so their order is
-- no matter.
use Prim.Native.Nat.{ℕ}
use mathlib.Core.Path.{◌≡◌}
use mathlib.Core.Bool.{Bool, true, false}
use mathlib.Core.Option.{Option, none, some}
use mathlib.Core.List.{List, [], ◌∷◌}
use native.Mathlib.Omega.{arith}
use star.Base.Tests.{◌==◌, if◌then◌else◌}

abbrev pub Table {ℓ} : Type ℓ → Type ℓ
Table V = List (ℕ × V)

module _ {ℓ} {V : Type ℓ} where
  unfoldable pub get : ℕ → Table V → Option V
  get k [] = none
  get k ((j, v) ∷ t) = if j == k then some v else get k t

  unfoldable pub remove : ℕ → Table V → Table V
  remove k [] = []
  remove k ((j, v) ∷ t) = let rest = remove k t in if j == k then rest else (j, v) ∷ rest

  unfoldable pub insert : ℕ → V → Table V → Table V
  unfolding remove
  insert k v t = (k, v) ∷ remove k t

  unfoldable pub contains_key : ℕ → Table V → Bool
  unfolding get
  contains_key k t = elim (get k t) [ none ↦ false | some _ ↦ true ]

  pub get-remove : (k j : ℕ) (t : Table V) → get j (remove k t) ≡ (if k == j then none else get j t)
  unfolding get remove
  get-remove k j [] = ground arith
  get-remove k j ((i, v) ∷ t) = ground (arith, get-remove k j t)

  pub get-insert :
      (k j : ℕ) (v : V) (t : Table V) → get j (insert k v t) ≡ (if k == j then some v else get j t)
  unfolding get insert
  get-insert k j v t = ground (arith, get-remove k j t)
