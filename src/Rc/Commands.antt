-- ===== src/Rc/Commands.antt =====
-- What the commands of crates/star9-rc/src/lib.rs take.
use star.Base.{
  ℕ, suc, ◌<◌, Bool, true, false, not, List, [], ◌∷◌, length, arith, Bool-cases, inl, inr, String,
  codes, bytes_eq,
}
use star.Vfs.Map.{Map}
use star.Rc.Chars.{Chars, RcResult, ok, err, out_of_fuel}
use star.Rc.Operators.{TokenKind, Token}
use star.Rc.Taken.{Fine}
use star.Rc.Ast.{Word, Node, Nodes, Branch, HereDoc, nodes_of, cases_of}
use star.Rc.Parse.{
  Parse, ParserState, ◌>>=◌, pure, is_lbrace, is_rbrace, is_lparen, is_rparen, sees, sees_or_end,
  consume_separator, match_word, skip_separators, expect_symbol, expect_word, expect_any_word, many,
}
use star.Rc.Simple.{any_word, parse_simple}
use star.Rc.Parser.{
  ends_case, parse_block, parse_paren_group, condition, match_not, match_if_not, else_branch,
  parse_if, parse_while, for_values, parse_for, parse_case, parse_switch, function_body,
  parse_function, of_word, of_kind, command_step,
}
use star.Rc.Nested.{
  Bracket, opens, closes, Nested, Nests, Advances, Nests-pure, Nests->>=, Nests-first,
  Advances-first, Advances-Nests, Fine-trans, Fine-below,
}
use star.Rc.Steps.{
  consume_separator-Nests, match_word-Nests, open-Advances, close-Advances, expect_word-Advances,
  expect_any_word-Advances, any_word-Advances, many-Nests, when-Nests, skipped-Nests,
}
use star.Rc.Parts.{parse_simple-Nests}

-- Below, `k` bounds the tokens behind the first token of a command.
module _ (command : Parse Node) (sequence : (TokenKind → Bool) → Parse (List Node)) (k : ℕ)
    (command-Nests : (o : List Bracket) → Nests k o o command)
    (sequence-Nests : (stop : TokenKind → Bool) (o : List Bracket)
      → Nests k o o (sequence stop)) where
  open-Nests :
      (o : List Bracket) (b : Bracket) (label : String)
      → Nests k o (b ∷ o) (expect_symbol (opens b) label)
  open-Nests o b label = Advances-Nests k o (b ∷ o) _ (open-Advances k o b label)

  close-Nests :
      (o : List Bracket) (b : Bracket) (label : String)
      → Nests k (b ∷ o) o (expect_symbol (closes b) label)
  close-Nests o b label = Advances-Nests k (b ∷ o) o _ (close-Advances k o b label)

  -- A sequence and the bracket that closes it.
  closed-Nests :
      (o : List Bracket) (b : Bracket) (label : String) (node : List Node → Node)
      → Nests k
          (b ∷ o)
          o
          (do body ← sequence (closes b); closed ← expect_symbol (closes b) label; pure (node body))
  closed-Nests o b label node =
      Nests->>= k (b ∷ o) (b ∷ o) o (sequence (closes b)) _ (sequence-Nests (closes b) (b ∷ o))
        (λ body.
          Nests->>= k (b ∷ o) o o (expect_symbol (closes b) label) _ (close-Nests o b label)
            (λ closed. Nests-pure k o (node body)))

  parse_block-Nests : (o : List Bracket) → Nests (suc k) o o (parse_block command sequence)
  unfolding parse_block opens closes
  parse_block-Nests o =
      Nests-first k o (Bracket.brace ∷ o) o (expect_symbol is_lbrace "{") _
        (open-Advances (suc k) o Bracket.brace "{")
        (λ opened. closed-Nests o Bracket.brace "}" (λ body. Node.block (nodes_of body)))

  parse_paren_group-Nests :
      (o : List Bracket) → Nests (suc k) o o (parse_paren_group command sequence)
  unfolding parse_paren_group opens closes
  parse_paren_group-Nests o =
      Nests-first k o (Bracket.paren ∷ o) o (expect_symbol is_lparen "(") _
        (open-Advances (suc k) o Bracket.paren "(")
        (λ opened. closed-Nests o Bracket.paren ")" (λ body. Node.block (nodes_of body)))

  condition-Nests : (o : List Bracket) → Nests k o o (condition command sequence)
  unfolding condition opens closes
  condition-Nests o =
      Nests->>= k o (Bracket.paren ∷ o) o (expect_symbol is_lparen "(") _
        (open-Nests o Bracket.paren "(")
        (λ opened.
          Nests->>= k _ _ o (sequence is_rparen) _ (sequence-Nests is_rparen (Bracket.paren ∷ o))
            (λ nodes.
              Nests->>= k _ o o (expect_symbol is_rparen ")") _ (close-Nests o Bracket.paren ")")
                (λ closed.
                  skipped-Nests k o o (pure (Node.sequence (nodes_of nodes)))
                    (Nests-pure k o (Node.sequence (nodes_of nodes))))))

  Fine-else :
      (o : List Bracket) (st : ParserState) (r : RcResult (Bool × ParserState))
      → length st.tokens < k
      → Fine (λ r. Nested o st.tokens o r.1.tokens × (length r.1.tokens < k)) r
      → Fine {T = Branch × ParserState}
          (λ r. Nested o st.tokens o r.1.tokens)
          (elim r [
            | ok (true, st') ↦
                (do skipped ← skip_separators; node ← command; pure (Branch.a_node node)) st'
            | ok (false, st') ↦ ok (Branch.no_node, st)
            | err e ↦ err e
            | RcResult.out_of_fuel ↦ RcResult.out_of_fuel
          ])
  Fine-else o st (ok (true, st')) l (n, m) = Fine-trans o o o st.tokens st'.tokens _ n (
      skipped-Nests k o o _
        (Nests->>= k o o o command _ (command-Nests o)
          (λ node. Nests-pure k o (Branch.a_node node)))
        st' m)
  Fine-else o st (ok (false, st')) l n = Nested.stay
  Fine-else o st (err e) l n = tt
  Fine-else o st out_of_fuel l n = elim n [ ]

  for_values-Nests : (o : List Bracket) → Nests k o o (for_values command sequence)
  unfolding for_values
  for_values-Nests o =
      Nests->>= k o o o (match_word "in") _ (match_word-Nests k o "in")
        (λ found. when-Nests k o found _ (many-Nests k o _ any_word (any_word-Advances k o)))

  parse_while-Nests : (o : List Bracket) → Nests (suc k) o o (parse_while command sequence)
  unfolding parse_while
  parse_while-Nests o =
      Nests-first k o o o (expect_word "while") _ (expect_word-Advances (suc k) o "while")
        (λ keyword. Nests->>= k o o o (condition command sequence) _ (condition-Nests o) (λ test.
          Nests->>= k o o o command _ (command-Nests o)
            (λ body. Nests-pure k o (Node.while_loop test body))))

  parse_for-Nests : (o : List Bracket) → Nests (suc k) o o (parse_for command sequence)
  unfolding parse_for opens closes
  parse_for-Nests o =
      Nests-first k o o o (expect_word "for") _ (expect_word-Advances (suc k) o "for") (λ keyword.
        Nests->>= k o (Bracket.paren ∷ o) o (expect_symbol is_lparen "(") _
          (open-Nests o Bracket.paren "(")
          (λ opened.
            Nests->>= k _ _ o expect_any_word _
              (Advances-Nests k _ _ _ (expect_any_word-Advances k (Bracket.paren ∷ o)))
              (λ var.
                Nests->>= k _ _ o (for_values command sequence) _
                  (for_values-Nests (Bracket.paren ∷ o))
                  (λ values.
                    Nests->>= k _ o o (expect_symbol is_rparen ")") _
                      (close-Nests o Bracket.paren ")")
                      (λ closed. skipped-Nests k o o _ (
                        Nests->>= k o o o command _ (command-Nests o)
                          (λ body. Nests-pure k o (Node.for_in var values body))))))))

  match_not-Nests :
      (o : List Bracket) (found : Bool) → Nests k o o (match_not command sequence found)
  unfolding match_not
  match_not-Nests o true st l = match_word-Nests k o "not" st l
  match_not-Nests o false st l = Nested.stay

  match_if_not-Nests : (o : List Bracket) → Nests k o o (match_if_not command sequence)
  unfolding match_if_not
  match_if_not-Nests o = skipped-Nests k o o _ (
      Nests->>= k o o o (match_word "if") (match_not command sequence) (match_word-Nests k o "if")
        (match_not-Nests o))

  else_branch-Nests : (o : List Bracket) → Nests k o o (else_branch command sequence)
  unfolding else_branch
  else_branch-Nests o st l =
      Fine-else o st (match_if_not command sequence st) l
        (Fine-below k o o st (match_if_not command sequence st) l (match_if_not-Nests o st l))

  parse_if-Nests : (o : List Bracket) → Nests (suc k) o o (parse_if command sequence)
  unfolding parse_if
  parse_if-Nests o =
      Nests-first k o o o (expect_word "if") _ (expect_word-Advances (suc k) o "if") (λ keyword.
        Nests->>= k o o o (condition command sequence) _ (condition-Nests o) (λ test.
          Nests->>= k o o o command _ (command-Nests o) (λ then_branch.
            Nests->>= k o o o (else_branch command sequence) _ (else_branch-Nests o)
              (λ other. Nests-pure k o (Node.if_else test then_branch other)))))

  parse_case-Advances : (o : List Bracket) → Advances k o o (parse_case command sequence)
  unfolding parse_case
  parse_case-Advances o =
      Advances-first k o o o (expect_word "case") _ (expect_word-Advances k o "case") (λ keyword.
        Nests->>= k o o o (many _ any_word) _ (many-Nests k o _ any_word (any_word-Advances k o))
          (λ patterns. Nests->>= k o o o consume_separator _ (consume_separator-Nests k o) (λ ended.
            Nests->>= k o o o (sequence ends_case) _ (sequence-Nests ends_case o) (λ body.
              skipped-Nests {A = List Word × Nodes} k o o (pure (patterns, nodes_of body))
                (Nests-pure {A = List Word × Nodes} k o (patterns, nodes_of body))))))

  -- The cases of a `switch`, and the brace that closes it.
  cases-Nests :
      (o : List Bracket) (value : Word)
      → Nests k (Bracket.brace ∷ o) o (do
        cases ← many (λ ts. not (sees_or_end is_rbrace ts)) (parse_case command sequence)
        ended ← expect_symbol is_rbrace "}"
        pure (Node.switch value (cases_of cases)))
  unfolding closes
  cases-Nests o value =
      Nests->>= k _ _ o (many _ (parse_case command sequence)) _
        (many-Nests k _ _ _ (parse_case-Advances (Bracket.brace ∷ o)))
        (λ cases.
          Nests->>= k _ o o (expect_symbol is_rbrace "}") _ (close-Nests o Bracket.brace "}")
            (λ ended. Nests-pure k o (Node.switch value (cases_of cases))))

  parse_switch-Nests : (o : List Bracket) → Nests (suc k) o o (parse_switch command sequence)
  unfolding parse_switch opens closes
  parse_switch-Nests o =
      Nests-first k o o o (expect_word "switch") _ (expect_word-Advances (suc k) o "switch")
        (λ keyword.
          Nests->>= k o (Bracket.paren ∷ o) o (expect_symbol is_lparen "(") _
            (open-Nests o Bracket.paren "(")
            (λ opened.
              Nests->>= k _ _ o any_word _
                (Advances-Nests k _ _ _ (any_word-Advances k (Bracket.paren ∷ o)))
                (λ value.
                  Nests->>= k _ o o (expect_symbol is_rparen ")") _
                    (close-Nests o Bracket.paren ")")
                    (λ closed. skipped-Nests k o o _ (
                      Nests->>= k o (Bracket.brace ∷ o) o (expect_symbol is_lbrace "{") _
                        (open-Nests o Bracket.brace "{")
                        (λ began. skipped-Nests k _ o _ (cases-Nests o value)))))))

  -- The block of a function begins behind its name.
  block-Nests : (o : List Bracket) → Nests k o o (parse_block command sequence)
  block-Nests o st l = parse_block-Nests o st (omega (arith, l))

  function_body-Nests : (o : List Bracket) → Nests k o o (function_body command sequence)
  unfolding function_body
  function_body-Nests o st l = elim (Bool-cases (sees is_lbrace st.tokens)) [
    | inl e ↦
        rw (function_body, e)
          (Nests->>= k o o o (parse_block command sequence) _ (block-Nests o)
            (λ body. Nests-pure k o (Branch.a_node body)) st l)
    | inr e ↦ rw (function_body, e) Nested.stay
  ]

  parse_function-Nests : (o : List Bracket) → Nests (suc k) o o (parse_function command sequence)
  unfolding parse_function
  parse_function-Nests o =
      Nests-first k o o o (expect_word "fn") _ (expect_word-Advances (suc k) o "fn") (λ keyword.
        Nests->>= k o o o expect_any_word _ (Advances-Nests k o o _ (expect_any_word-Advances k o))
          (λ name.
            Nests->>= k o o o (function_body command sequence) _ (function_body-Nests o)
              (λ body. Nests-pure k o (Node.function name body))))

  simple-Nests :
      (o : List Bracket) → Nests (suc k) o o (parse_simple (parse_block command sequence))
  simple-Nests o = parse_simple-Nests (parse_block command sequence) k block-Nests o

  of_word-Nests : (o : List Bracket) (w : Chars) → Nests (suc k) o o (of_word command sequence w)
  unfolding of_word
  of_word-Nests o w st l = elim (Bool-cases (bytes_eq w (codes "if"))) [
    | inl e ↦ rw (of_word, e) (parse_if-Nests o st l)
    | inr e ↦ elim (Bool-cases (bytes_eq w (codes "while"))) [
      | inl f ↦ rw (of_word, e, f) (parse_while-Nests o st l)
      | inr f ↦ elim (Bool-cases (bytes_eq w (codes "for"))) [
        | inl g ↦ rw (of_word, e, f, g) (parse_for-Nests o st l)
        | inr g ↦ elim (Bool-cases (bytes_eq w (codes "switch"))) [
          | inl h ↦ rw (of_word, e, f, g, h) (parse_switch-Nests o st l)
          | inr h ↦ elim (Bool-cases (bytes_eq w (codes "fn"))) [
            | inl i ↦ rw (of_word, e, f, g, h, i) (parse_function-Nests o st l)
            | inr i ↦ rw (of_word, e, f, g, h, i) (simple-Nests o st l)
          ]
        ]
      ]
    ]
  ]

  of_kind-Nests :
      (o : List Bracket) (kind : TokenKind) → Nests (suc k) o o (of_kind command sequence kind)
  unfolding of_kind
  of_kind-Nests o TokenKind.lbrace st l = parse_block-Nests o st l
  of_kind-Nests o TokenKind.lparen st l = parse_paren_group-Nests o st l
  of_kind-Nests o (TokenKind.word w) st l = of_word-Nests o w st l
  of_kind-Nests o _ st l = simple-Nests o st l

  command_step-at :
      (o : List Bracket) (ts : List Token) (docs : Map HereDoc)
      → length ts < suc k
      → Fine
          (λ r. Nested o ts o r.1.tokens)
          (command_step command sequence (record { tokens = ts; here_docs = docs }))
  unfolding command_step
  command_step-at o [] docs l = simple-Nests o (record { tokens = []; here_docs = docs }) l
  command_step-at o (t ∷ ts) docs l =
      of_kind-Nests o t.kind (record { tokens = t ∷ ts; here_docs = docs }) l

  -- One more level of nesting is enough for one more token.
  pub command_step-Nests : (o : List Bracket) → Nests (suc k) o o (command_step command sequence)
  command_step-Nests o st l = command_step-at o st.tokens st.here_docs l
