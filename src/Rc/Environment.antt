-- ===== src/Rc/Environment.antt =====
-- How a session of crates/star9-rc/src/lib.rs hands the values of its variables on. They go over as
-- UTF-8, in which a zero byte is always the character of that number, so both sides are texts here.
use star.Base.{
  ℕ, ◌≡◌, ◌≢◌, refl, ap, ◌∙◌, Bool, false, ◌==◌, List, [], ◌∷◌, ◌++◌, All, append_assoc, Bool-cases,
  inl, inr,
}
use star.Rc.Chars.{Chars, has_char}
use star.Rc.Values.{split_at, cons_first, join_with}

-- `values.join("\0")`
unfoldable pub export_values : List Chars → Chars
unfolding join_with
export_values values = join_with (0 ∷ []) values

abbrev pub is_nul : ℕ → Bool
is_nul c = c == 0

-- `data.split(|byte| *byte == 0)`
unfoldable pub import_values : Chars → List Chars
unfolding split_at
import_values bytes = split_at is_nul bytes

abbrev pub NoNul : Chars → Type 0
NoNul v = has_char 0 v ≡ false

split_at-value : (v : Chars) → NoNul v → split_at is_nul v ≡ v ∷ []
unfolding split_at cons_first has_char
split_at-value [] h = refl
split_at-value (c ∷ v) h = elim (Bool-cases (is_nul c)) [
  | inl e ↦ absurd (cc (rw e at h))
  | inr e ↦ rw (split_at, e, split_at-value v (rw e at h)) refl
]

split_at-next :
    (v rest : Chars) → NoNul v → split_at is_nul (v ++ 0 ∷ rest) ≡ v ∷ split_at is_nul rest
unfolding split_at cons_first has_char
split_at-next [] rest h = refl
split_at-next (c ∷ v) rest h = elim (Bool-cases (is_nul c)) [
  | inl e ↦ absurd (cc (rw e at h))
  | inr e ↦ rw (split_at, e, split_at-next v rest (rw e at h)) refl
]

split_at-join :
    (v : Chars) (vs : List Chars)
    → All NoNul (v ∷ vs)
    → split_at is_nul (join_with (0 ∷ []) (v ∷ vs)) ≡ v ∷ vs
unfolding join_with
split_at-join v [] (h, _) = split_at-value v h
split_at-join v (w ∷ vs) (h, k) =
    ap (split_at is_nul) (append_assoc v (0 ∷ []) (join_with (0 ∷ []) (w ∷ vs)))
    ∙ split_at-next v (join_with (0 ∷ []) (w ∷ vs)) h
    ∙ ap (λ l. v ∷ l) (split_at-join w vs k)

-- A variable comes back from the environment as it was, if it has a value at all and no value has the
-- zero character in it.
import_values-export_values :
    (values : List Chars)
    → values ≢ []
    → All NoNul values
    → import_values (export_values values) ≡ values
unfolding import_values export_values
import_values-export_values [] n h = absurd (n refl)
import_values-export_values (v ∷ vs) n h = split_at-join v vs h
