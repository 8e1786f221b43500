-- ===== src/Rc/Parsed.antt =====
-- What the parser of crates/star9-rc/src/lib.rs takes from its tokens, and where it stops.
use star.Base.{
  ℕ, zero, suc, ◌≡◌, refl, Bool, true, false, List, [], ◌∷◌, length, arith, Bool-cases, inl, inr,
}
use star.Vfs.Map.{Map}
use star.Rc.Chars.{Chars, RcResult, ok, err, out_of_fuel}
use star.Rc.Operators.{TokenKind, Token}
use star.Rc.Taken.{Fine}
use star.Rc.Ast.{Node, Nodes, HereDoc, nodes_of}
use star.Rc.Parse.{
  Parse, ParserState, ◌>>=◌, pure, sees_or_end, skip_separators, consume_separator, when,
}
use star.Rc.Parser.{
  closes_group, with_background, after_node, separated, parse_node, sequence_loop,
  parse_sequence_until, parse_command, parse_script,
}
use star.Rc.Nested.{Bracket, Nested, Nests, Nests-pure, Nests->>=}
use star.Rc.Sequences.{parse_sequence_until-Nests}
use star.Rc.Commands.{command_step-Nests}

-- What holds of a result, if there is one.
Okay : {T : Type 0} → (T → Type 0) → RcResult T → Type 0
Okay P (ok t) = P t
Okay P _ = Unit

Fine-Okay :
    {T : Type 0} (P Q : T → Type 0) (r : RcResult T) → Fine P r → Okay Q r → Fine (λ t. P t × Q t) r
unfolding Okay
Fine-Okay P Q (ok t) p q = (p, q)
Fine-Okay P Q (err e) p q = tt
Fine-Okay P Q out_of_fuel p q = elim p [ ]

Okay->>= :
    {A B : Type 0} (P : A × ParserState → Type 0) (Q : B × ParserState → Type 0) (p : Parse A)
    (f : A → Parse B) (st : ParserState)
    → Okay P (p st)
    → ((a : A) (st' : ParserState) → P (a, st') → Okay Q (f a st'))
    → Okay Q ((p >>= f) st)
unfolding ◌>>=◌ Okay
Okay->>= {A} {B} P Q p f st h next = go (p st) h
  where
    go :
        (r : RcResult (A × ParserState))
        → Okay P r
        → Okay Q (elim r [
          | ok (a, st') ↦ f a st'
          | err e ↦ err e
          | RcResult.out_of_fuel ↦ RcResult.out_of_fuel
        ])
    go (ok (a, st')) k = next a st' k
    go (err e) k = tt
    go out_of_fuel k = tt

-- Whatever holds of the state.
Okay-any : {A : Type 0} (r : RcResult (A × ParserState)) → Okay (λ r. Unit {0}) r
unfolding Okay
Okay-any (ok r) = tt
Okay-any (err e) = tt
Okay-any out_of_fuel = tt

module _ (stop : TokenKind → Bool) where
  abbrev Stops : ParserState → Type 0
  Stops st = sees_or_end stop st.tokens ≡ true

  separated-Stops :
      (found : Bool) (st : ParserState)
      → Okay {T = Bool × ParserState} (λ r. r.0 ≡ false → Stops r.1) (separated stop found st)
  unfolding separated Okay ◌>>=◌ pure skip_separators
  separated-Stops true st = λ e. cc e
  separated-Stops false st = λ e. ground (arith, e)

  after_node-Stops :
      (st : ParserState)
      → Okay {T = Bool × ParserState} (λ r. r.0 ≡ false → Stops r.1) (after_node stop st)
  unfolding after_node
  after_node-Stops st =
      Okay->>= (λ r. Unit {0}) (λ r. r.0 ≡ false → Stops r.1) consume_separator (separated stop) st
        (Okay-any (consume_separator st)) (λ found st' u. separated-Stops found st')

module _ (debug_kind : TokenKind → Chars) where
  parse_command-Nests : (k : ℕ) (o : List Bracket) → Nests k o o (parse_command debug_kind k)
  unfolding parse_command
  parse_command-Nests zero o st l = absurd (omega (arith, l))
  parse_command-Nests (suc k) o st l =
      command_step-Nests (parse_command debug_kind k)
        (parse_sequence_until (parse_command debug_kind k) debug_kind) k (parse_command-Nests k)
        (λ stop.
          parse_sequence_until-Nests (parse_command debug_kind k) k (parse_command-Nests k)
            debug_kind stop)
        o st l

  module _ (command : Parse Node) (stop : TokenKind → Bool) where
    when-Stops :
        (m : Parse (List Node)) (goes_on : Bool) (st : ParserState)
        → (goes_on ≡ false → Stops stop st)
        → Okay {T = List Node × ParserState} (λ r. Stops stop r.1) (m st)
        → Okay {T = List Node × ParserState} (λ r. Stops stop r.1) (when goes_on m st)
    unfolding when Okay
    when-Stops m true st h k = k
    when-Stops m false st h k = h refl

    sequence_loop-Stops :
        (fuel : ℕ) (ts : List Token) (docs : Map HereDoc)
        → Okay {T = List Node × ParserState}
            (λ r. Stops stop r.1)
            (sequence_loop command debug_kind stop fuel (record { tokens = ts; here_docs = docs }))
    unfolding sequence_loop Okay sees_or_end
    sequence_loop-Stops zero ts docs = tt
    sequence_loop-Stops (suc fuel) [] docs = refl
    sequence_loop-Stops (suc fuel) (t ∷ ts) docs = elim (Bool-cases (stop t.kind)) [
      | inl e ↦ rw (sequence_loop, e) e
      | inr e ↦
          rw (sequence_loop, e)
            (Okay->>= (λ r. Unit {0}) (λ r. Stops stop r.1)
              (parse_node command debug_kind t (suc (length ts))) _
              (record { tokens = t ∷ ts; here_docs = docs }) (Okay-any _)
              (λ node st' u.
                Okay->>= (λ r. Unit {0}) (λ r. Stops stop r.1) (with_background node) _ st'
                  (Okay-any _)
                  (λ whole st2 u'.
                    Okay->>= (λ r. r.0 ≡ false → Stops stop r.1) (λ r. Stops stop r.1)
                      (after_node stop) _ st2 (after_node-Stops stop st2)
                      (λ goes_on st3 h.
                        Okay->>= (λ r. Stops stop r.1) (λ r. Stops stop r.1)
                          (when goes_on (sequence_loop command debug_kind stop fuel)) _ st3
                          (when-Stops _ goes_on st3 h
                            (sequence_loop-Stops fuel st3.tokens st3.here_docs))
                          (λ more st4 k. k)))))
    ]

    parse_sequence_until-Stops :
        (st : ParserState)
        → Okay {T = List Node × ParserState}
            (λ r. Stops stop r.1)
            (parse_sequence_until command debug_kind stop st)
    unfolding parse_sequence_until
    parse_sequence_until-Stops st =
        Okay->>= (λ r. Unit {0}) (λ r. Stops stop r.1) skip_separators _ st (Okay-any _)
          (λ skipped st' u. sequence_loop-Stops (suc (length st'.tokens)) st'.tokens st'.here_docs)

  -- The parser ends on every list of tokens. If it returns a script, then in the tokens that it took
  -- every brace and every parenthesis is closed by its own kind, and it stopped at the end of the tokens,
  -- or at a brace or a parenthesis that closes none of them.
  pub parse_script-Nested :
      (tokens : List Token) (here_docs : Map HereDoc)
      → Fine {T = Nodes × ParserState}
          (λ r. Nested [] tokens [] r.1.tokens × (sees_or_end closes_group r.1.tokens ≡ true))
          (parse_script debug_kind (record { tokens = tokens; here_docs = here_docs }))
  unfolding parse_script Okay
  parse_script-Nested tokens here_docs =
      let n : ℕ = suc (length tokens) in
      let st : ParserState = record { tokens = tokens; here_docs = here_docs } in
      let read : Parse (List Node) =
        parse_sequence_until (parse_command debug_kind n) debug_kind closes_group in
      Fine-Okay _ _ _
        (Nests->>= n [] [] [] read (λ nodes. pure (nodes_of nodes))
          (parse_sequence_until-Nests (parse_command debug_kind n) n (parse_command-Nests n)
            debug_kind closes_group [])
          (λ nodes. Nests-pure n [] (nodes_of nodes)) st (omega arith))
        (Okay->>= (λ r. Stops closes_group r.1) (λ r. Stops closes_group r.1) read
          (λ nodes. pure (nodes_of nodes)) st
          (parse_sequence_until-Stops (parse_command debug_kind n) closes_group st)
          (λ nodes st' k. k))
