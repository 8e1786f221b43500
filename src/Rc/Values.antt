-- ===== src/Rc/Values.antt =====
-- The lists of texts that words of crates/star9-rc/src/lib.rs stand for.
use star.Base.{ℕ, zero, suc, Bool, true, false, ◌==◌, List, [], ◌∷◌, ◌++◌, length}
use star.Rc.Chars.{Chars, RcResult, ok, err, plain_error, is_whitespace, has_char}
use star.Rc.Scan.{quote}

-- One text before each of some others.
unfoldable pub prefix_all : Chars → List Chars → List Chars
prefix_all l [] = []
prefix_all l (r ∷ rs) = (l ++ r) ∷ prefix_all l rs

-- The two loops of `concat_values`; without texts on either side there are none.
unfoldable pub concat_values : List Chars → List Chars → List Chars
unfolding prefix_all
concat_values [] right = []
concat_values (l ∷ ls) right = prefix_all l right ++ concat_values ls right

-- What was read of a text, and what is left of it.
pub record Part : Type 0 where
  pub text : Chars
  pub rest : Chars

-- The inner loop of `split_caret_parts`, behind an opening quote.
unfoldable pub quoted_part : Chars → Chars → Part
quoted_part out [] = record { text = out; rest = [] }
quoted_part out (c ∷ []) = record { text = out ++ c ∷ []; rest = [] }
quoted_part out (c ∷ d ∷ ds) = elim (c == quote) [
  | true ↦ elim (d == quote) [
    | true ↦ quoted_part (out ++ c ∷ d ∷ []) ds
    | false ↦ record { text = out ++ c ∷ []; rest = d ∷ ds }
  ]
  | false ↦ quoted_part (out ++ c ∷ []) (d ∷ ds)
]

-- The loop of `split_caret_parts`, on as many steps as there are characters.
unfoldable pub caret_loop : ℕ → Chars → Chars → List Chars
unfolding quoted_part
caret_loop zero current cs = current ∷ []
caret_loop (suc fuel) current [] = current ∷ []
caret_loop (suc fuel) current (c ∷ cs) = elim (c == quote) [
  | true ↦ let part = quoted_part (current ++ c ∷ []) cs in caret_loop fuel part.text part.rest
  | false ↦ elim (c == b'^') [
    | true ↦ current ∷ caret_loop fuel [] cs
    | false ↦ caret_loop fuel (current ++ c ∷ []) cs
  ]
]

-- The loop of `read_quoted_literal`, behind the opening quote.
unfoldable pub literal_loop : Chars → Chars → RcResult Part
literal_loop out [] = err (plain_error "unterminated quote")
literal_loop out (c ∷ []) = elim (c == quote) [
  | true ↦ ok (record { text = out; rest = [] })
  | false ↦ err (plain_error "unterminated quote")
]
literal_loop out (c ∷ d ∷ ds) = elim (c == quote) [
  | true ↦ elim (d == quote) [
    | true ↦ literal_loop (out ++ quote ∷ []) ds
    | false ↦ ok (record { text = out; rest = d ∷ ds })
  ]
  | false ↦ literal_loop (out ++ c ∷ []) (d ∷ ds)
]

unfoldable pub cons_first : ℕ → List Chars → List Chars
cons_first c [] = (c ∷ []) ∷ []
cons_first c (part ∷ parts) = (c ∷ part) ∷ parts

-- `split` at the characters of a kind.
unfoldable pub split_at : (ℕ → Bool) → Chars → List Chars
unfolding cons_first
split_at p [] = [] ∷ []
split_at p (c ∷ cs) =
    let parts = split_at p cs in elim (p c) [ true ↦ [] ∷ parts | false ↦ cons_first c parts ]

-- `filter(|part| !part.is_empty())`
unfoldable pub drop_empty : List Chars → List Chars
drop_empty [] = []
drop_empty ([] ∷ parts) = drop_empty parts
drop_empty ((c ∷ cs) ∷ parts) = (c ∷ cs) ∷ drop_empty parts

-- `split_whitespace`
abbrev pub split_whitespace : Chars → List Chars
split_whitespace cs = drop_empty (split_at is_whitespace cs)

-- The separators: the first text of `$ifs`, or blanks.
unfoldable pub separators : List Chars → Chars
separators [] = b' ' ∷ b'\t' ∷ b'\n' ∷ []
separators (first ∷ more) = first

unfoldable pub split_ifs : Chars → List Chars → List Chars
unfolding split_at drop_empty separators has_char
split_ifs value ifs = drop_empty (split_at (λ c. has_char c (separators ifs)) value)

-- `join`
unfoldable pub join_with : Chars → List Chars → Chars
join_with sep [] = []
join_with sep (v ∷ []) = v
join_with sep (v ∷ w ∷ vs) = v ++ sep ++ join_with sep (w ∷ vs)

unfoldable pub split_caret_parts : Chars → List Chars
unfolding caret_loop
split_caret_parts raw = caret_loop (suc (length raw)) [] raw
