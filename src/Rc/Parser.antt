-- ===== src/Rc/Parser.antt =====
-- `Parser` of crates/star9-rc/src/lib.rs: commands, pipelines, and sequences of them.
use star.Base.{
  bytes_eq, if◌then◌else◌, ℕ, zero, suc, Bool, true, false, ◌||◌, ◌==◌, not, List, [], ◌∷◌, ◌++◌,
  length, codes, Option, none, some,
}
use star.Vfs.Map.{Map}
use star.Rc.Chars.{Chars, RcResult, ok, err, out_of_fuel}
use star.Rc.Operators.{TokenKind, Token}
use star.Rc.Ast.{Word, Node, Nodes, Branch, HereDoc, nodes_of, cases_of}
use star.Rc.Parse.{
  Parse, ParserState, ◌>>=◌, pure, is_lbrace, is_rbrace, is_lparen, is_rparen, is_separator,
  is_word, sees, sees_or_end, take_if, consume_separator, match_word, skip_separators,
  expect_symbol, expect_word, expect_any_word, when, many,
}
use star.Rc.Simple.{any_word, parse_simple}

unfoldable pub is_bang : TokenKind → Bool
is_bang TokenKind.bang = true
is_bang _ = false

unfoldable pub is_amp : TokenKind → Bool
is_amp TokenKind.amp = true
is_amp _ = false

unfoldable pub closes_group : TokenKind → Bool
unfolding is_rbrace is_rparen
closes_group kind = is_rbrace kind || is_rparen kind

unfoldable pub ends_patterns : TokenKind → Bool
unfolding is_separator is_rbrace
ends_patterns kind = is_separator kind || is_rbrace kind

unfoldable pub ends_case : TokenKind → Bool
unfolding is_rbrace is_word
ends_case kind = is_rbrace kind || is_word (codes "case") kind

-- What runs the command of this token with the nodes on both sides.
unfoldable pub pipe_of : TokenKind → Option (Node → Node → Node)
pipe_of (TokenKind.pipe spec) = some (λ l r. Node.pipe l r spec)
pipe_of _ = none

unfoldable pub logic_of : TokenKind → Option (Node → Node → Node)
logic_of TokenKind.and_and = some Node.both
logic_of TokenKind.or_or = some Node.either
logic_of _ = none

-- The loops of `parse_and_or` and `parse_pipeline`, at the node that they have so far.
unfoldable pub chain_loop :
    ℕ → (TokenKind → Option (Node → Node → Node)) → Parse Node → Node → Parse Node
unfolding ◌>>=◌
chain_loop zero joins item left st = out_of_fuel
chain_loop (suc fuel) joins item left st = elim st.tokens [
  | [] ↦ ok (left, st)
  | t ∷ ts ↦ elim (joins t.kind) [
    | none ↦ ok (left, st)
    | some node ↦
        (do right ← item; chain_loop fuel joins item (node left right)) (record st { tokens = ts })
  ]
]

unfoldable pub chain : (TokenKind → Option (Node → Node → Node)) → Parse Node → Parse Node
unfolding ◌>>=◌ chain_loop
chain joins item = do left ← item; (λ st. chain_loop (suc (length st.tokens)) joins item left st)

unfoldable pub with_background : Node → Parse Node
unfolding ◌>>=◌ pure take_if is_amp
with_background node = do
  amp ← take_if is_amp
  pure (elim amp [ true ↦ Node.background node | false ↦ node ])

-- A node was read where this token stood; an error if it still stands there.
unfoldable pub check_progress : (TokenKind → Chars) → Token → ℕ → Parse (Unit {0})
check_progress debug_kind t before st = elim (length st.tokens == before) [
  | true ↦ err (record {
    message = codes "parser made no progress at token " ++ debug_kind t.kind;
    span = some t.span;
  })
  | false ↦ ok (tt, st)
]

-- Whether there was a separator, and whether the tokens go on without one.
unfoldable pub separated : (TokenKind → Bool) → Bool → Parse Bool
unfolding ◌>>=◌ pure skip_separators sees_or_end
separated stop true st = (do skipped ← skip_separators; pure true) st
separated stop false st = ok (not (sees_or_end stop st.tokens), st)

-- What follows a node: a separator, a node without one between, or the end.
unfoldable pub after_node : (TokenKind → Bool) → Parse Bool
unfolding ◌>>=◌ consume_separator separated
after_node stop = do found ← consume_separator; separated stop found

module _ (command : Parse Node) where
  unfoldable pub unary_loop : List Token → Map HereDoc → RcResult (Node × ParserState)
  unfolding is_bang
  unary_loop [] docs = command (record { tokens = []; here_docs = docs })
  unary_loop (t ∷ ts) docs = elim (is_bang t.kind) [
    | true ↦ elim (unary_loop ts docs) [
      | ok (node, st) ↦ ok (Node.inverse node, st)
      | err e ↦ err e
      | RcResult.out_of_fuel ↦ RcResult.out_of_fuel
    ]
    | false ↦ command (record { tokens = t ∷ ts; here_docs = docs })
  ]

  unfoldable pub parse_unary : Parse Node
  unfolding unary_loop
  parse_unary st = unary_loop st.tokens st.here_docs

  unfoldable pub parse_pipeline : Parse Node
  unfolding chain parse_unary pipe_of
  parse_pipeline = chain pipe_of parse_unary

  unfoldable pub parse_and_or : Parse Node
  unfolding chain parse_pipeline logic_of
  parse_and_or = chain logic_of parse_pipeline

  unfoldable pub parse_node : (TokenKind → Chars) → Token → ℕ → Parse Node
  unfolding ◌>>=◌ pure parse_and_or check_progress
  parse_node debug_kind t before = do
    node ← parse_and_or
    checked ← check_progress debug_kind t before
    pure node

  module _ (debug_kind : TokenKind → Chars) (stop : TokenKind → Bool) where
    unfoldable pub sequence_loop : ℕ → Parse (List Node)
    unfolding ◌>>=◌ pure parse_node with_background after_node when
    sequence_loop zero st = out_of_fuel
    sequence_loop (suc fuel) st = elim st.tokens [
      | [] ↦ ok ([], st)
      | t ∷ ts ↦ elim (stop t.kind) [
        | true ↦ ok ([], st)
        | false ↦
            (do
              node ← parse_node debug_kind t (suc (length ts))
              whole ← with_background node
              goes_on ← after_node stop
              more ← when goes_on (sequence_loop fuel)
              pure (whole ∷ more))
              st
      ]
    ]

    unfoldable pub parse_sequence_until : Parse (List Node)
    unfolding ◌>>=◌ sequence_loop skip_separators
    parse_sequence_until = do
      skipped ← skip_separators
      (λ st. sequence_loop (suc (length st.tokens)) st)

module _ (parse_command : Parse Node)
    (sequence_until : (TokenKind → Bool) → Parse (List Node)) where
  unfoldable pub parse_block : Parse Node
  unfolding ◌>>=◌ pure expect_symbol is_lbrace is_rbrace
  parse_block = do
    opened ← expect_symbol is_lbrace "{"
    body ← sequence_until is_rbrace
    closed ← expect_symbol is_rbrace "}"
    pure (Node.block (nodes_of body))

  unfoldable pub parse_paren_group : Parse Node
  unfolding ◌>>=◌ pure expect_symbol is_lparen is_rparen
  parse_paren_group = do
    opened ← expect_symbol is_lparen "("
    body ← sequence_until is_rparen
    closed ← expect_symbol is_rparen ")"
    pure (Node.block (nodes_of body))

  -- A condition in parentheses, and the separators behind it.
  unfoldable pub condition : Parse Node
  unfolding ◌>>=◌ pure expect_symbol is_lparen is_rparen skip_separators
  condition = do
    opened ← expect_symbol is_lparen "("
    nodes ← sequence_until is_rparen
    closed ← expect_symbol is_rparen ")"
    skipped ← skip_separators
    pure (Node.sequence (nodes_of nodes))

  unfoldable pub match_not : Bool → Parse Bool
  unfolding match_word
  match_not true st = match_word "not" st
  match_not false st = ok (false, st)

  -- `match_word("if") && match_word("not")`, behind separators
  unfoldable pub match_if_not : Parse Bool
  unfolding ◌>>=◌ skip_separators match_word match_not
  match_if_not = do skipped ← skip_separators; found ← match_word "if"; match_not found

  -- Without `if not` the position is as it was.
  unfoldable pub else_branch : Parse Branch
  unfolding ◌>>=◌ pure match_if_not skip_separators
  else_branch st = elim (match_if_not st) [
    | ok (true, st') ↦
        (do skipped ← skip_separators; node ← parse_command; pure (Branch.a_node node)) st'
    | ok (false, st') ↦ ok (Branch.no_node, st)
    | err e ↦ err e
    | RcResult.out_of_fuel ↦ RcResult.out_of_fuel
  ]

  unfoldable pub parse_if : Parse Node
  unfolding ◌>>=◌ pure expect_word condition else_branch
  parse_if = do
    keyword ← expect_word "if"
    test ← condition
    then_branch ← parse_command
    other ← else_branch
    pure (Node.if_else test then_branch other)

  unfoldable pub parse_while : Parse Node
  unfolding ◌>>=◌ pure expect_word condition
  parse_while = do
    keyword ← expect_word "while"
    test ← condition
    body ← parse_command
    pure (Node.while_loop test body)

  unfoldable pub for_values : Parse (List Word)
  unfolding ◌>>=◌ match_word when many any_word sees is_rparen
  for_values = do
    found ← match_word "in"
    when found (many (λ ts. not (sees is_rparen ts)) any_word)

  unfoldable pub parse_for : Parse Node
  unfolding ◌>>=◌ pure expect_word expect_symbol is_lparen is_rparen expect_any_word for_values
      skip_separators
  parse_for = do
    keyword ← expect_word "for"
    opened ← expect_symbol is_lparen "("
    var ← expect_any_word
    values ← for_values
    closed ← expect_symbol is_rparen ")"
    skipped ← skip_separators
    body ← parse_command
    pure (Node.for_in var values body)

  unfoldable pub parse_case : Parse (List Word × Nodes)
  unfolding ◌>>=◌ pure expect_word many any_word sees_or_end ends_patterns consume_separator
      ends_case skip_separators
  parse_case = do
    keyword ← expect_word "case"
    patterns ← many (λ ts. not (sees_or_end ends_patterns ts)) any_word
    ended ← consume_separator
    body ← sequence_until ends_case
    skipped ← skip_separators
    pure (patterns, nodes_of body)

  unfoldable pub parse_switch : Parse Node
  unfolding ◌>>=◌ pure expect_word expect_symbol is_lparen is_rparen is_lbrace is_rbrace any_word
      skip_separators many parse_case sees_or_end
  parse_switch = do
    keyword ← expect_word "switch"
    opened ← expect_symbol is_lparen "("
    value ← any_word
    closed ← expect_symbol is_rparen ")"
    skipped ← skip_separators
    began ← expect_symbol is_lbrace "{"
    skipped' ← skip_separators
    cases ← many (λ ts. not (sees_or_end is_rbrace ts)) parse_case
    ended ← expect_symbol is_rbrace "}"
    pure (Node.switch value (cases_of cases))

  unfoldable pub function_body : Parse Branch
  unfolding ◌>>=◌ pure parse_block sees is_lbrace
  function_body st = elim (sees is_lbrace st.tokens) [
    | true ↦ (do body ← parse_block; pure (Branch.a_node body)) st
    | false ↦ ok (Branch.no_node, st)
  ]

  unfoldable pub parse_function : Parse Node
  unfolding ◌>>=◌ pure expect_word expect_any_word function_body
  parse_function = do
    keyword ← expect_word "fn"
    name ← expect_any_word
    body ← function_body
    pure (Node.function name body)

  -- The handler of a command that begins with a word.
  unfoldable pub of_word : Chars → Parse Node
  unfolding parse_if parse_while parse_for parse_switch parse_function parse_simple parse_block
  of_word w =
      if bytes_eq w (codes "if")
      then parse_if
      else if bytes_eq w (codes "while")
      then parse_while
      else if bytes_eq w (codes "for")
      then parse_for
      else if bytes_eq w (codes "switch")
      then parse_switch
      else if bytes_eq w (codes "fn")
      then parse_function
      else parse_simple parse_block

  unfoldable pub of_kind : TokenKind → Parse Node
  unfolding parse_block parse_paren_group of_word parse_simple
  of_kind TokenKind.lbrace = parse_block
  of_kind TokenKind.lparen = parse_paren_group
  of_kind (TokenKind.word w) = of_word w
  of_kind _ = parse_simple parse_block

  -- `parse_command`, that calls itself as `parse_command` and `sequence_until`.
  unfoldable pub command_step : Parse Node
  unfolding of_kind parse_simple parse_block
  command_step st = elim st.tokens [ [] ↦ parse_simple parse_block st | t ∷ ts ↦ of_kind t.kind st ]

module _ (debug_kind : TokenKind → Chars) where
  -- `parse_command`, with calls of itself that are nested so deep at most.
  unfoldable pub parse_command : ℕ → Parse Node
  unfolding command_step parse_sequence_until
  parse_command zero st = out_of_fuel
  parse_command (suc depth) st =
      command_step (parse_command depth) (parse_sequence_until (parse_command depth) debug_kind) st

  unfoldable pub parse_script : Parse Nodes
  unfolding ◌>>=◌ pure parse_sequence_until parse_command closes_group
  parse_script st =
      (do
        nodes ←
            parse_sequence_until (parse_command (suc (length st.tokens))) debug_kind closes_group
        pure (nodes_of nodes))
        st
