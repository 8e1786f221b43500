-- ===== src/Rc/Glob.antt =====
-- The patterns of crates/star9-rc/src/lib.rs.
pub mod Matches
pub mod Decides
use star.Base.{
  ℕ, zero, suc, ◌+◌, Bool, true, false, not, ◌||◌, ◌&&◌, ◌==◌, List, [], ◌∷◌, length, some, none,
}
use star.Rc.Chars.{Chars, within, split_once}

-- The loop of `char_class_match`: single characters, and ranges of three.
unfoldable pub class_loop : Bool → ℕ → Chars → Bool
class_loop matched v [] = matched
class_loop matched v (a ∷ []) = matched || a == v
class_loop matched v (a ∷ b ∷ []) = class_loop (matched || a == v) v (b ∷ [])
class_loop matched v (a ∷ dash ∷ b ∷ rest) = elim (dash == b'-') [
  | true ↦ class_loop (matched || within a b v) v rest
  | false ↦ class_loop (matched || a == v) v (dash ∷ b ∷ rest)
]

unfoldable pub char_class_match : Chars → ℕ → Bool
unfolding class_loop
char_class_match [] v = false
char_class_match (c ∷ cs) v = elim (c == b'~') [
  | true ↦ not (class_loop false v cs)
  | false ↦ class_loop false v (c ∷ cs)
]

-- A pattern of one character, and what follows it.
unfoldable pub on_first : (ℕ → Bool) → (Chars → Bool) → Chars → Bool
on_first test next [] = false
on_first test next (c ∷ cs) = elim (test c) [ true ↦ next cs | false ↦ false ]

unfoldable pub pattern_match_inner : ℕ → Chars → Chars → Bool
unfolding on_first char_class_match
pattern_match_inner zero p v = false
pattern_match_inner (suc fuel) [] [] = true
pattern_match_inner (suc fuel) [] (d ∷ ds) = false
pattern_match_inner (suc fuel) (c ∷ p) v = elim (c == b'*') [
  | true ↦ elim (pattern_match_inner fuel p v) [
    | true ↦ true
    | false ↦ on_first (λ d. true) (pattern_match_inner fuel (c ∷ p)) v
  ]
  | false ↦ elim (c == b'?') [
    | true ↦ on_first (λ d. true) (pattern_match_inner fuel p) v
    | false ↦ elim (c == b'[') [
      | true ↦ elim (split_once b']' p) [
        | some (class, rest) ↦ on_first (char_class_match class) (pattern_match_inner fuel rest) v
        | none ↦ on_first (λ d. c == d) (pattern_match_inner fuel p) v
      ]
      | false ↦ on_first (λ d. c == d) (pattern_match_inner fuel p) v
    ]
  ]
]

-- The characters of a pattern and a text are more steps than the search is deep.
unfoldable pub pattern_match : Chars → Chars → Bool
unfolding pattern_match_inner
pattern_match pattern value =
    pattern_match_inner (suc (length pattern + length value)) pattern value
