-- ===== src/Base/Decimal.antt =====
-- `to_string` of an unsigned number.
use Prim.Native.Nat.{ℕ, zero, suc, ◌+◌, ◌-◌, ◌*◌, ◌/◌, ◌%◌, ◌<◌}
use mathlib.Core.Path.{◌≡◌, refl, ap, sym, ◌∙◌}
use mathlib.Core.List.{List, [], ◌∷◌, ◌++◌}
use mathlib.Core.Logic.{inl, inr}
use native.Mathlib.Omega.{arith}
use star.Base.Tests.{if◌then◌else◌, ltb, Bool-cases}

-- The digits of a number below ten to the power of the fuel.
unfoldable pub decimal_digits : ℕ → ℕ → List ℕ
decimal_digits zero n = []
decimal_digits (suc fuel) n =
    let more = decimal_digits fuel (n / 10) ++ (48 + n % 10) ∷ [] in
    if ltb n 10 then (48 + n) ∷ [] else more

unfoldable pub decimal : ℕ → List ℕ
unfolding decimal_digits
decimal n = decimal_digits (suc n) n

value_from : ℕ → List ℕ → ℕ
value_from acc [] = acc
value_from acc (c ∷ cs) = value_from (acc * 10 + (c - 48)) cs

value_from-snoc :
    (acc : ℕ) (cs : List ℕ) (c : ℕ)
    → value_from acc (cs ++ c ∷ []) ≡ value_from acc cs * 10 + (c - 48)
unfolding value_from
value_from-snoc acc [] c = refl
value_from-snoc acc (d ∷ cs) c = value_from-snoc (acc * 10 + (d - 48)) cs c

value_from-decimal_digits : (fuel n : ℕ) → n < fuel → value_from 0 (decimal_digits fuel n) ≡ n
unfolding decimal_digits
value_from-decimal_digits zero n h = absurd (omega (arith, h))
value_from-decimal_digits (suc fuel) n h = elim (Bool-cases (ltb n 10)) [
  | inl e ↦ rw e (unfold value_from in omega arith)
  | inr e ↦
      let step = value_from-snoc 0 (decimal_digits fuel (n / 10)) (48 + n % 10) in
      let ih = value_from-decimal_digits fuel (n / 10) (ground (arith, h, e)) in
      rw e (step ∙ omega (arith, ih))
]

-- Two numbers that print the same are the same.
pub decimal-injective : (m n : ℕ) → decimal m ≡ decimal n → m ≡ n
unfolding decimal
decimal-injective m n e =
    sym (value_from-decimal_digits (suc m) m (omega arith))
    ∙ ap (value_from 0) e
    ∙ value_from-decimal_digits (suc n) n (omega arith)
