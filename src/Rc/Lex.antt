-- ===== src/Rc/Lex.antt =====
-- The lexer of crates/star9-rc/src/lib.rs.
use star.Base.{
  ℕ, zero, suc, ◌+◌, Bool, true, false, ◌||◌, ◌&&◌, ◌==◌, List, [], ◌∷◌, length, Option, none, some,
  if◌then◌else◌,
}
use star.Rc.Chars.{Chars, RcResult, ok, out_of_fuel, ◌>>=◌}
use star.Rc.Scan.{read_word}
use star.Rc.Operators.{TokenKind, Token, token, Scanned, scanned, parse_pipe_spec, parse_redirect}

-- The rest of a line, up to its end.
unfoldable pub skip_comment : ℕ → Chars → Scanned (Unit {0})
skip_comment i [] = scanned tt i []
skip_comment i (c ∷ cs) = elim (c == b'\n') [
  | true ↦ scanned tt i (c ∷ cs)
  | false ↦ skip_comment (i + 1) cs
]

-- A token of one character.
unfoldable pub single : ℕ → Option TokenKind
single c =
    if c == b';'
    then some TokenKind.semi
    else if c == b'{'
    then some TokenKind.lbrace
    else if c == b'}'
    then some TokenKind.rbrace
    else if c == b'('
    then some TokenKind.lparen
    else if c == b')'
    then some TokenKind.rparen
    else if c == b'!'
    then some TokenKind.bang
    else none

unfoldable pub tokens_from : {A : Type 0} → (A → TokenKind) → ℕ → Scanned A → Scanned Token
tokens_from kind start found =
    scanned (token (kind found.value) start found.next) found.next found.rest

-- `&` and `&&`
unfoldable pub lex_amp : ℕ → Chars → Scanned Token
lex_amp i [] = scanned (token TokenKind.amp i (i + 1)) (i + 1) []
lex_amp i (c ∷ cs) = elim (c == b'&') [
  | true ↦ scanned (token TokenKind.and_and i (i + 2)) (i + 2) cs
  | false ↦ scanned (token TokenKind.amp i (i + 1)) (i + 1) (c ∷ cs)
]

-- `|`, with the descriptors of the pipe
unfoldable pub lex_pipe_spec : ℕ → Chars → RcResult (Scanned Token)
unfolding parse_pipe_spec tokens_from
lex_pipe_spec i cs = parse_pipe_spec (i + 1) cs >>= λ found. ok (tokens_from TokenKind.pipe i found)

-- `|` and `||`
unfoldable pub lex_pipe : ℕ → Chars → RcResult (Scanned Token)
unfolding lex_pipe_spec
lex_pipe i [] = lex_pipe_spec i []
lex_pipe i (c ∷ cs) = elim (c == b'|') [
  | true ↦ ok (scanned (token TokenKind.or_or i (i + 2)) (i + 2) cs)
  | false ↦ lex_pipe_spec i (c ∷ cs)
]

unfoldable pub lex_word : ℕ → Chars → RcResult (Scanned Token)
unfolding read_word tokens_from
lex_word i cs = read_word i cs >>= λ found.
    ok (tokens_from TokenKind.word i (scanned found.text found.next found.rest))

-- The token that begins with a character which is neither blank nor a comment's.
unfoldable pub lex_token : ℕ → ℕ → Chars → RcResult (Scanned Token)
unfolding lex_amp lex_pipe lex_word parse_redirect tokens_from single
lex_token i c cs = elim (single c) [
  | some kind ↦ ok (scanned (token kind i (i + 1)) (i + 1) cs)
  | none ↦ elim (c == b'&') [
    | true ↦ ok (lex_amp i cs)
    | false ↦ elim (c == b'|') [
      | true ↦ lex_pipe i cs
      | false ↦ elim (c == b'<' || c == b'>') [
        | true ↦ parse_redirect c i cs >>= λ found. ok (tokens_from TokenKind.redirect i found)
        | false ↦ lex_word i (c ∷ cs)
      ]
    ]
  ]
]

unfoldable pub cons_token : Token → RcResult (List Token) → RcResult (List Token)
cons_token t more = more >>= λ ts. ok (t ∷ ts)

-- The loop of `lex`; the flag is `at_line_start`.
unfoldable pub lex_loop : ℕ → ℕ → Bool → Chars → RcResult (List Token)
unfolding lex_token skip_comment cons_token
lex_loop zero i at_line_start cs = out_of_fuel
lex_loop (suc fuel) i at_line_start [] = ok []
lex_loop (suc fuel) i at_line_start (c ∷ cs) = elim (c == b' ' || c == b'\t' || c == b'\r') [
  | true ↦ lex_loop fuel (i + 1) at_line_start cs
  | false ↦ elim (c == b'\n') [
    | true ↦ cons_token (token TokenKind.newline i (i + 1)) (lex_loop fuel (i + 1) true cs)
    | false ↦ elim (at_line_start && c == b'#') [
      | true ↦
          let skipped = skip_comment i (c ∷ cs) in
          lex_loop fuel skipped.next at_line_start skipped.rest
      | false ↦ lex_token i c cs >>= λ found.
          cons_token found.value (lex_loop fuel found.next false found.rest)
    ]
  ]
]

unfoldable pub lex : Chars → RcResult (List Token)
unfolding lex_loop
lex source = lex_loop (suc (length source)) 0 true source
