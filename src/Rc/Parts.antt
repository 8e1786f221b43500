-- ===== src/Rc/Parts.antt =====
-- What a simple command of crates/star9-rc/src/lib.rs takes.
use star.Base.{
  ℕ, zero, suc, ◌<◌, ◌≡◌, refl, Bool, true, false, ◌||◌, ◌&&◌, List, [], ◌∷◌, length, arith,
  Bool-cases, inl, inr, Option-cases,
}
use star.Vfs.Map.{Map, lookup}
use star.Rc.Chars.{Chars}
use star.Rc.Operators.{TokenKind, Token, RedirectMode}
use star.Rc.Taken.{Fine}
use star.Rc.Ast.{new_word, Node, Target, HereDoc}
use star.Rc.Parse.{
  Parse, pure, is_lbrace, is_rbrace, is_lparen, is_rparen, sees, expect_symbol, expect_any_word,
  many,
}
use star.Rc.Simple.{
  any_word, assigned_list, assigned, Part, add, is_plain_word, node_of, starts_part, may_be_process,
  here_target, word_redirect, parse_assignment_head, first_word, read_target, redirect_target,
  part_of, simple_loop, parse_simple,
}
use star.Rc.Nested.{
  Fine-behind, Bracket, opens, closes, is_bracket, Nested, Nests, Nests-pure, Nests->>=,
  Advances-Nests,
}
use star.Rc.Steps.{
  open-Advances, close-Advances, expect_any_word-Advances, any_word-Advances, many-Nests,
}

assigned_list-Nests : (k : ℕ) (o : List Bracket) → Nests k (Bracket.paren ∷ o) o assigned_list
unfolding assigned_list closes
assigned_list-Nests k o =
    Nests->>= k _ _ o (many _ any_word) _ (many-Nests k _ _ any_word (any_word-Advances k _))
      (λ values.
        Nests->>= k _ _ o (expect_symbol is_rparen ")") _
          (Advances-Nests k _ _ _ (close-Advances k o Bracket.paren ")"))
          (λ closed. Nests-pure k o values))

assigned-Nests : (k : ℕ) (o : List Bracket) (suffix : Chars) → Nests k o o (assigned suffix)
unfolding assigned opens
assigned-Nests k o [] st l = elim (Bool-cases (sees is_lparen st.tokens)) [
  | inl e ↦
      rw (assigned, e)
        (Nests->>= k o _ o (expect_symbol is_lparen "(") _
          (Advances-Nests k _ _ _ (open-Advances k o Bracket.paren "("))
          (λ opened. assigned_list-Nests k o) st l)
  | inr e ↦ rw (assigned, e) Nested.stay
]
assigned-Nests k o (c ∷ cs) st l = Nested.stay

here_target-Nests : (k : ℕ) (o : List Bracket) (raw : Chars) → Nests k o o (here_target raw)
unfolding here_target
here_target-Nests k o raw st l = elim (Option-cases (lookup raw st.here_docs)) [
  | inl e ↦ rw (here_target, e) Nested.stay
  | inr (doc, e) ↦ rw (here_target, e) Nested.stay
]

word_redirect-Nests :
    (k : ℕ) (o : List Bracket) (mode : RedirectMode) (raw : Chars)
    → Nests k o o (word_redirect mode raw)
unfolding word_redirect pure
word_redirect-Nests k o RedirectMode.here raw st l = here_target-Nests k o raw st l
word_redirect-Nests k o _ raw st l = Nested.stay

first_word-Nests : (k : ℕ) (o : List Bracket) (raw : Chars) → Nests k o o (first_word raw)
unfolding first_word
first_word-Nests k o raw st l = elim (Option-cases (parse_assignment_head raw)) [
  | inl e ↦ rw (first_word, e) (Nests-pure k o (Part.plain (new_word raw)) st l)
  | inr ((name, suffix), e) ↦
      rw (first_word, e)
        (Nests->>= k o o o (assigned suffix) _ (assigned-Nests k o suffix)
          (λ values.
            Nests-pure {A = Part} k o (Part.assignment (record { name = name; values = values })))
          st l)
]

module _ (block : Parse Node) (k : ℕ) (block-Nests : (o : List Bracket) → Nests k o o block) where
  read_target-Nests :
      (o : List Bracket) (mode : RedirectMode) (is_block : Bool)
      → Nests k o o (read_target block mode is_block)
  unfolding read_target
  read_target-Nests o mode true =
      Nests->>= k o o o block _ (block-Nests o) (λ body. Nests-pure k o (Target.process body))
  read_target-Nests o mode false =
      Nests->>= k o o o expect_any_word _ (Advances-Nests k o o _ (expect_any_word-Advances k o))
        (λ raw. word_redirect-Nests k o mode raw)

  redirect_target-Nests :
      (o : List Bracket) (mode : RedirectMode) → Nests k o o (redirect_target block mode)
  unfolding redirect_target
  redirect_target-Nests o (RedirectMode.dup from) st l = Nests-pure k o Target.no_target st l
  redirect_target-Nests o mode st l =
      read_target-Nests o mode (may_be_process mode && sees is_lbrace st.tokens) st l

  part_of-Nests :
      (o : List Bracket) (seen : Bool) (kind : TokenKind) → Nests k o o (part_of block seen kind)
  unfolding part_of
  part_of-Nests o true (TokenKind.word raw) st l = Nests-pure k o (Part.plain (new_word raw)) st l
  part_of-Nests o false (TokenKind.word raw) st l = first_word-Nests k o raw st l
  part_of-Nests o seen (TokenKind.redirect op) st l =
      Nests->>= k o o o (redirect_target block op.mode) _ (redirect_target-Nests o op.mode)
        (λ target. Nests-pure {A = Part} k o (Part.redirect op target)) st l
  part_of-Nests o seen _ st l = Nests-pure k o (Part.plain (new_word [])) st l

starts_part-other : (kind : TokenKind) → starts_part kind ≡ true → is_bracket kind ≡ false
unfolding starts_part is_bracket is_lbrace is_rbrace is_lparen is_rparen
starts_part-other (TokenKind.word w) e = refl
starts_part-other (TokenKind.redirect op) e = refl
starts_part-other _ e = absurd (cc (e))

module _ (block : Parse Node) (k : ℕ) (block-Nests : (o : List Bracket) → Nests k o o block) where
  simple_loop-Fine :
      (fuel : ℕ) (o : List Bracket) (seen : Bool) (ts : List Token) (docs : Map HereDoc)
      → length ts < fuel
      → length ts < suc k
      → Fine
          (λ r. Nested o ts o r.1.tokens)
          (simple_loop block fuel seen (record { tokens = ts; here_docs = docs }))
  unfolding simple_loop
  simple_loop-Fine zero o seen ts docs f l = absurd (omega (arith, f))
  simple_loop-Fine (suc fuel) o seen [] docs f l = Nested.stay
  simple_loop-Fine (suc fuel) o seen (t ∷ ts) docs f l = elim (Bool-cases (starts_part t.kind)) [
    | inl e ↦
        let more : (seen' : Bool) → Nests (suc (length ts)) o o (simple_loop block fuel seen') =
          λ seen' st l'.
            simple_loop-Fine fuel o seen' st.tokens st.here_docs (omega (arith, f, l'))
              (omega (arith, l, l')) in
        let parts : Nests (suc (length ts)) o o (part_of block seen t.kind) =
          λ st l'. part_of-Nests block k block-Nests o seen t.kind st (omega (arith, l, l')) in
        rw (simple_loop, e)
          (Fine-behind o t ts _ (starts_part-other t.kind e) (
            Nests->>= (suc (length ts)) o o o (part_of block seen t.kind) _ parts
              (λ part.
                Nests->>= (suc (length ts)) o o o
                  (simple_loop block fuel (seen || is_plain_word part)) _
                  (more (seen || is_plain_word part))
                  (λ c. Nests-pure (suc (length ts)) o (add part c)))
              (record { tokens = ts; here_docs = docs }) (omega arith)))
    | inr e ↦ rw (simple_loop, e) Nested.stay
  ]

  -- A simple command, in which blocks are read that begin behind its first token.
  pub parse_simple-Nests : (o : List Bracket) → Nests (suc k) o o (parse_simple block)
  unfolding parse_simple
  parse_simple-Nests o st l =
      Nests->>= (suc (length st.tokens)) o o o (simple_loop block (suc (length st.tokens)) false) _
        (λ st' l'.
          simple_loop-Fine (suc (length st.tokens)) o false st'.tokens st'.here_docs l'
            (omega (arith, l, l')))
        (λ c. Nests-pure (suc (length st.tokens)) o (node_of c)) st (omega arith)
