-- ===== src/Rc/Simple.antt =====
-- The simple commands of crates/star9-rc/src/lib.rs.
use star.Base.{
  ℕ, zero, suc, Bool, true, false, ◌||◌, ◌&&◌, ◌==◌, not, List, [], ◌∷◌, length, Option, none, some,
}
use star.Vfs.Map.{lookup, delete}
use star.Rc.Chars.{Chars, ok, out_of_fuel, is_alphabetic, is_digit, split_once}
use star.Rc.Operators.{RedirectMode, RedirectOp, TokenKind}
use star.Rc.Ast.{Word, new_word, Assignment, Node, Target, Redirects, SimpleCommand, command}
use star.Rc.Parse.{
  Parse, ◌>>=◌, pure, is_lbrace, is_lparen, is_rparen, sees, sees_or_end, expect_symbol,
  expect_any_word, many,
}

unfoldable pub name_rest : Chars → Bool
name_rest [] = true
name_rest (c ∷ cs) = (is_alphabetic c || is_digit c || c == b'_') && name_rest cs

unfoldable pub is_name : Chars → Bool
unfolding name_rest
is_name [] = false
is_name (c ∷ cs) = (is_alphabetic c || c == b'_' || c == b'*') && name_rest cs

unfoldable pub parse_assignment_head : Chars → Option (Chars × Chars)
unfolding is_name
parse_assignment_head raw = elim (split_once b'=' raw) [
  | none ↦ none
  | some (name, suffix) ↦ elim (is_name name) [ true ↦ some (name, suffix) | false ↦ none ]
]

-- `Word::new(self.expect_any_word()?)`
unfoldable pub any_word : Parse Word
unfolding ◌>>=◌ pure expect_any_word
any_word = do raw ← expect_any_word; pure (new_word raw)

-- The words up to a closing parenthesis, which is taken too.
unfoldable pub assigned_list : Parse (List Word)
unfolding ◌>>=◌ pure any_word many expect_symbol sees_or_end is_rparen
assigned_list = do
  values ← many (λ ts. not (sees_or_end is_rparen ts)) any_word
  closed ← expect_symbol is_rparen ")"
  pure values

-- The value of an assignment, of which this stands behind the equals sign.
unfoldable pub assigned : Chars → Parse (List Word)
unfolding ◌>>=◌ pure assigned_list expect_symbol sees is_lparen
assigned [] st = elim (sees is_lparen st.tokens) [
  | true ↦ (do opened ← expect_symbol is_lparen "("; assigned_list) st
  | false ↦ ok ([], st)
]
assigned (c ∷ cs) st = ok (new_word (c ∷ cs) ∷ [], st)

-- What one round of the loop of `parse_simple` puts to the command.
pub data Part : Type 0 where
  assignment : Assignment → Part
  plain : Word → Part
  redirect : RedirectOp → Target → Part

unfoldable pub add : Part → SimpleCommand → SimpleCommand
add (Part.assignment a) (command gs ws rs) = command (a ∷ gs) ws rs
add (Part.plain w) (command gs ws rs) = command gs (w ∷ ws) rs
add (Part.redirect op target) (command gs ws rs) =
    command gs ws (Redirects.a_redirect op.fd op.mode target rs)

unfoldable pub is_plain_word : Part → Bool
is_plain_word (Part.plain w) = true
is_plain_word _ = false

unfoldable pub node_of : SimpleCommand → Node
node_of (command [] [] Redirects.no_redirect) = Node.empty
node_of c = Node.simple c

unfoldable pub starts_part : TokenKind → Bool
starts_part (TokenKind.word w) = true
starts_part (TokenKind.redirect op) = true
starts_part _ = false

-- `&&` of the tests of the mode and the brace.
unfoldable pub may_be_process : RedirectMode → Bool
may_be_process RedirectMode.here = false
may_be_process (RedirectMode.dup from) = false
may_be_process _ = true

-- The here document of a marker, or the word itself.
unfoldable pub here_target : Chars → Parse Target
here_target raw st = elim (lookup raw st.here_docs) [
  | some doc ↦ ok (Target.here_doc doc, record st { here_docs = delete raw st.here_docs })
  | none ↦ ok (Target.word_target (new_word raw), st)
]

unfoldable pub word_redirect : RedirectMode → Chars → Parse Target
unfolding here_target pure
word_redirect RedirectMode.here raw = here_target raw
word_redirect _ raw = pure (Target.word_target (new_word raw))

-- A word before which there was none but assignments.
unfoldable pub first_word : Chars → Parse Part
unfolding parse_assignment_head ◌>>=◌ pure assigned
first_word raw = elim (parse_assignment_head raw) [
  | none ↦ pure (Part.plain (new_word raw))
  | some (name, suffix) ↦ do
    values ← assigned suffix
    pure (Part.assignment (record { name = name; values = values }))
]

module _ (parse_block : Parse Node) where
  -- The target of an operator, which is a block if the flag says so.
  unfoldable pub read_target : RedirectMode → Bool → Parse Target
  unfolding ◌>>=◌ pure expect_any_word word_redirect
  read_target mode true = do body ← parse_block; pure (Target.process body)
  read_target mode false = do raw ← expect_any_word; word_redirect mode raw

  unfoldable pub redirect_target : RedirectMode → Parse Target
  unfolding pure may_be_process sees is_lbrace read_target
  redirect_target (RedirectMode.dup from) st = pure Target.no_target st
  redirect_target mode st = read_target mode (may_be_process mode && sees is_lbrace st.tokens) st

  -- One round, which begins with this kind of token and goes on behind it.
  unfoldable pub part_of : Bool → TokenKind → Parse Part
  unfolding ◌>>=◌ pure first_word redirect_target
  part_of seen_word (TokenKind.word raw) = elim seen_word [
    | true ↦ pure (Part.plain (new_word raw))
    | false ↦ first_word raw
  ]
  part_of seen_word (TokenKind.redirect op) = do
    target ← redirect_target op.mode
    pure (Part.redirect op target)
  part_of seen_word _ = pure (Part.plain (new_word []))

  unfoldable pub simple_loop : ℕ → Bool → Parse SimpleCommand
  unfolding ◌>>=◌ pure part_of starts_part add is_plain_word
  simple_loop zero seen_word st = out_of_fuel
  simple_loop (suc fuel) seen_word st = elim st.tokens [
    | [] ↦ ok (command [] [] Redirects.no_redirect, st)
    | t ∷ ts ↦ elim (starts_part t.kind) [
      | false ↦ ok (command [] [] Redirects.no_redirect, st)
      | true ↦
          (do
            part ← part_of seen_word t.kind
            more ← simple_loop fuel (seen_word || is_plain_word part)
            pure (add part more))
            (record st { tokens = ts })
    ]
  ]

  unfoldable pub parse_simple : Parse Node
  unfolding ◌>>=◌ pure simple_loop node_of
  parse_simple st = (do c ← simple_loop (suc (length st.tokens)) false; pure (node_of c)) st
