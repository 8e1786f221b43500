-- ===== src/Rc/Sequences.antt =====
-- What the pipelines and the sequences of crates/star9-rc/src/lib.rs take.
use star.Base.{
  ℕ, zero, suc, ◌<◌, ◌≡◌, ◌≢◌, refl, Bool, true, false, ◌==◌, ==_iff, List, [], ◌∷◌, length, arith,
  Bool-cases, inl, inr, Option, some, Option-cases,
}
use star.Vfs.Map.{Map}
use star.Rc.Chars.{Chars, RcResult, ok, err, out_of_fuel}
use star.Rc.Operators.{TokenKind, Token}
use star.Rc.Taken.{Fine}
use star.Rc.Ast.{Node, HereDoc}
use star.Rc.Parse.{
  Parse, ParserState, ◌>>=◌, pure, is_lbrace, is_rbrace, is_lparen, is_rparen, take_if,
  consume_separator, skip_separators, when,
}
use star.Rc.Parser.{
  is_bang, is_amp, pipe_of, logic_of, chain_loop, chain, unary_loop, parse_unary, parse_pipeline,
  parse_and_or, with_background, check_progress, separated, parse_node, after_node, sequence_loop,
  parse_sequence_until,
}
use star.Rc.Nested.{
  Fine-behind, Bracket, is_bracket, Nested, Nested-length, Nests, Nests-pure, Nests->>=, bind-less,
}
use star.Rc.Steps.{
  Passes, take_if-Nests, consume_separator-Nests, skip_separators-Nests, when-Nests,
}

abbrev Joins : (TokenKind → Option (Node → Node → Node)) → Type 0
Joins joins =
    (kind : TokenKind) (node : Node → Node → Node)
    → joins kind ≡ some node
    → is_bracket kind ≡ false

pipe_of-Joins : Joins pipe_of
unfolding pipe_of is_bracket is_lbrace is_rbrace is_lparen is_rparen
pipe_of-Joins (TokenKind.pipe s) node e = refl
pipe_of-Joins _ node e = absurd (cc (e))

logic_of-Joins : Joins logic_of
unfolding logic_of is_bracket is_lbrace is_rbrace is_lparen is_rparen
logic_of-Joins TokenKind.and_and node e = refl
logic_of-Joins TokenKind.or_or node e = refl
logic_of-Joins _ node e = absurd (cc (e))

is_amp-Passes : Passes is_amp
unfolding is_amp is_bracket is_lbrace is_rbrace is_lparen is_rparen
is_amp-Passes TokenKind.amp e = refl
is_amp-Passes _ e = absurd (cc (e))

is_bang-Passes : Passes is_bang
unfolding is_bang is_bracket is_lbrace is_rbrace is_lparen is_rparen
is_bang-Passes TokenKind.bang e = refl
is_bang-Passes _ e = absurd (cc (e))

module _ (k : ℕ) (o : List Bracket) (joins : TokenKind → Option (Node → Node → Node))
    (j : Joins joins) (item : Parse Node) (item-Nests : Nests k o o item) where
  chain_loop-Fine :
      (fuel : ℕ) (left : Node) (ts : List Token) (docs : Map HereDoc)
      → length ts < fuel
      → length ts < k
      → Fine
          (λ r. Nested o ts o r.1.tokens)
          (chain_loop fuel joins item left (record { tokens = ts; here_docs = docs }))
  unfolding chain_loop
  chain_loop-Fine zero left ts docs f l = absurd (omega (arith, f))
  chain_loop-Fine (suc fuel) left [] docs f l = Nested.stay
  chain_loop-Fine (suc fuel) left (t ∷ ts) docs f l = elim (Option-cases (joins t.kind)) [
    | inl e ↦ rw (chain_loop, e) Nested.stay
    | inr (node, e) ↦
        rw (chain_loop, e)
          (Fine-behind o t ts _ (j t.kind node e) (
            Nests->>= (suc (length ts)) o o o item _ (λ st l'. item-Nests st (omega (arith, l, l')))
              (λ right st l'.
                chain_loop-Fine fuel (node left right) st.tokens st.here_docs (omega (arith, f, l'))
                  (omega (arith, l, l')))
              (record { tokens = ts; here_docs = docs }) (omega arith)))
  ]

  chain-Nests : Nests k o o (chain joins item)
  unfolding chain
  chain-Nests = Nests->>= k o o o item _ item-Nests (λ left st l.
      chain_loop-Fine (suc (length st.tokens)) left st.tokens st.here_docs (omega arith) l)

Fine-inverse :
    (o : List Bracket) (ts : List Token) (r : RcResult (Node × ParserState))
    → Fine (λ r. Nested o ts o r.1.tokens) r
    → Fine {T = Node × ParserState}
        (λ r. Nested o ts o r.1.tokens)
        (elim r [
          | ok (node, st) ↦ ok (Node.inverse node, st)
          | err e ↦ err e
          | RcResult.out_of_fuel ↦ RcResult.out_of_fuel
        ])
Fine-inverse o ts (ok (node, st)) n = n
Fine-inverse o ts (err e) n = tt
Fine-inverse o ts out_of_fuel n = elim n [ ]

module _ (command : Parse Node) (k : ℕ)
    (command-Nests : (o : List Bracket) → Nests k o o command) where
  unary_loop-Fine :
      (o : List Bracket) (ts : List Token) (docs : Map HereDoc)
      → length ts < k
      → Fine (λ r. Nested o ts o r.1.tokens) (unary_loop command ts docs)
  unfolding unary_loop
  unary_loop-Fine o [] docs l = command-Nests o (record { tokens = []; here_docs = docs }) l
  unary_loop-Fine o (t ∷ ts) docs l = elim (Bool-cases (is_bang t.kind)) [
    | inl e ↦
        rw (unary_loop, e)
          (Fine-behind o t ts _ (is_bang-Passes t.kind e) (
            Fine-inverse o ts (unary_loop command ts docs)
              (unary_loop-Fine o ts docs (omega (arith, l)))))
    | inr e ↦ rw (unary_loop, e) (command-Nests o (record { tokens = t ∷ ts; here_docs = docs }) l)
  ]

  parse_and_or-Nests : (o : List Bracket) → Nests k o o (parse_and_or command)
  unfolding parse_and_or parse_pipeline parse_unary
  parse_and_or-Nests o = chain-Nests k o logic_of logic_of-Joins (parse_pipeline command) (
      chain-Nests k o pipe_of pipe_of-Joins (parse_unary command)
        (λ st l. unary_loop-Fine o st.tokens st.here_docs l))

with_background-Nests :
    (m : ℕ) (o : List Bracket) (node : Node) → Nests m o o (with_background node)
unfolding with_background
with_background-Nests m o node =
    Nests->>= m o o o (take_if is_amp) _ (take_if-Nests m o is_amp is_amp-Passes)
      (λ amp. Nests-pure {A = Node} m o (elim amp [ true ↦ Node.background node | false ↦ node ]))

separated-Nests :
    (m : ℕ) (o : List Bracket) (stop : TokenKind → Bool) (found : Bool)
    → Nests m o o (separated stop found)
unfolding separated
separated-Nests m o stop true st l =
    Nests->>= m o o o skip_separators (λ skipped. pure true) (skip_separators-Nests m o)
      (λ skipped. Nests-pure m o true) st l
separated-Nests m o stop false st l = Nested.stay

after_node-Nests :
    (m : ℕ) (o : List Bracket) (stop : TokenKind → Bool) → Nests m o o (after_node stop)
unfolding after_node
after_node-Nests m o stop =
    Nests->>= m o o o consume_separator (separated stop) (consume_separator-Nests m o)
      (separated-Nests m o stop)

differ : (a b : ℕ) → (a == b) ≡ false → a ≢ b
differ a b e q = cc ((==_iff a b).1 q, e)

-- What is left after progress is less.
Fine-progress :
    (debug_kind : TokenKind → Chars) (o : List Bracket) (t : Token) (ts : List Token) (node : Node)
    (st : ParserState)
    → Nested o (t ∷ ts) o st.tokens
    → Fine {T = Node × ParserState}
        (λ r. Nested o (t ∷ ts) o r.1.tokens × (length r.1.tokens < suc (length ts)))
        ((check_progress debug_kind t (suc (length ts)) >>= (λ checked. pure node)) st)
unfolding check_progress ◌>>=◌ pure
Fine-progress debug_kind o t ts node st n =
    elim (Bool-cases (length st.tokens == suc (length ts))) [
      | inl e ↦ rw (◌>>=◌, check_progress, e) tt
      | inr e ↦
          rw (◌>>=◌, check_progress, e)
            (
              n,
              omega (
                arith,
                Nested-length o o (t ∷ ts) st.tokens n,
                differ (length st.tokens) (suc (length ts)) e,
              ),
            )
    ]

Fine-then :
    (o : List Bracket) (t : Token) (ts : List Token) (r : RcResult (Node × ParserState))
    (f : Node → Parse Node)
    → Fine (λ r. Nested o (t ∷ ts) o r.1.tokens) r
    → ((node : Node) (st : ParserState)
        → Nested o (t ∷ ts) o st.tokens
        → Fine {T = Node × ParserState}
            (λ r. Nested o (t ∷ ts) o r.1.tokens × (length r.1.tokens < suc (length ts)))
            (f node st))
    → Fine {T = Node × ParserState}
        (λ r. Nested o (t ∷ ts) o r.1.tokens × (length r.1.tokens < suc (length ts)))
        (elim r [
          | ok (node, st) ↦ f node st
          | err e ↦ err e
          | RcResult.out_of_fuel ↦ RcResult.out_of_fuel
        ])
Fine-then o t ts (ok (node, st)) f n h = h node st n
Fine-then o t ts (err e) f n h = tt
Fine-then o t ts out_of_fuel f n h = elim n [ ]

module _ (command : Parse Node) (k : ℕ) (command-Nests : (o : List Bracket) → Nests k o o command)
    (debug_kind : TokenKind → Chars) (stop : TokenKind → Bool) where
  parse_node-Fine :
      (o : List Bracket) (t : Token) (ts : List Token) (docs : Map HereDoc)
      → suc (length ts) < k
      → Fine {T = Node × ParserState}
          (λ r. Nested o (t ∷ ts) o r.1.tokens × (length r.1.tokens < suc (length ts)))
          (parse_node command debug_kind t
            (suc (length ts))
            (record { tokens = t ∷ ts; here_docs = docs }))
  unfolding parse_node ◌>>=◌
  parse_node-Fine o t ts docs l =
      let st : ParserState = record { tokens = t ∷ ts; here_docs = docs } in
      Fine-then o t ts (parse_and_or command st)
        (λ node. check_progress debug_kind t (suc (length ts)) >>= (λ checked. pure node))
        (parse_and_or-Nests command k command-Nests o st l)
        (λ node st' n. Fine-progress debug_kind o t ts node st' n)

  sequence_loop-Fine :
      (fuel : ℕ) (o : List Bracket) (ts : List Token) (docs : Map HereDoc)
      → length ts < fuel
      → length ts < k
      → Fine
          (λ r. Nested o ts o r.1.tokens)
          (sequence_loop command debug_kind stop fuel (record { tokens = ts; here_docs = docs }))
  unfolding sequence_loop
  sequence_loop-Fine zero o ts docs f l = absurd (omega (arith, f))
  sequence_loop-Fine (suc fuel) o [] docs f l = Nested.stay
  sequence_loop-Fine (suc fuel) o (t ∷ ts) docs f l = elim (Bool-cases (stop t.kind)) [
    | inl e ↦ rw (sequence_loop, e) Nested.stay
    | inr e ↦
        let m : ℕ = suc (length ts) in
        let more : Nests m o o (sequence_loop command debug_kind stop fuel) = λ st l'.
          sequence_loop-Fine fuel o st.tokens st.here_docs (omega (arith, f, l'))
            (omega (arith, l, l')) in
        rw (sequence_loop, e)
          (bind-less o o o (parse_node command debug_kind t (suc (length ts))) _
            (record { tokens = t ∷ ts; here_docs = docs }) (parse_node-Fine o t ts docs l)
            (λ node.
              Nests->>= m o o o (with_background node) _ (with_background-Nests m o node) (λ whole.
                Nests->>= m o o o (after_node stop) _ (after_node-Nests m o stop) (λ goes_on.
                  Nests->>= m o o o (when goes_on (sequence_loop command debug_kind stop fuel)) _
                    (when-Nests m o goes_on _ more) (λ nodes. Nests-pure m o (whole ∷ nodes))))))
  ]

  pub parse_sequence_until-Nests :
      (o : List Bracket) → Nests k o o (parse_sequence_until command debug_kind stop)
  unfolding parse_sequence_until
  parse_sequence_until-Nests o =
      Nests->>= k o o o skip_separators _ (skip_separators-Nests k o) (λ skipped st l.
        sequence_loop-Fine (suc (length st.tokens)) o st.tokens st.here_docs (omega arith) l)
