-- ===== src/Rc/Operators.antt =====
-- The tokens of crates/star9-rc/src/lib.rs, and how its lexer reads what follows a bar, and the operators of
-- a redirection.
use star.Base.{ℕ, ◌+◌, true, false, ◌==◌, [], ◌∷◌, ◌++◌, Option, none, some, if◌then◌else◌}
use star.Rc.Chars.{Chars, Span, RcResult, ok, ◌>>=◌, at, split_once, parse_u32, unwrap_or}

pub record PipeSpec : Type 0 where
  pub from_fd : ℕ
  pub to_fd : ℕ

-- `read`, `write`, `append`, `here` and `dup` of `RedirectMode`.
pub data RedirectMode : Type 0 where
  read write append here : RedirectMode
  dup : Option ℕ → RedirectMode

pub record RedirectOp : Type 0 where
  pub fd : ℕ
  pub mode : RedirectMode

pub data TokenKind : Type 0 where
  word : Chars → TokenKind
  newline semi and_and or_or amp bang lbrace rbrace lparen rparen : TokenKind
  pipe : Option PipeSpec → TokenKind
  redirect : RedirectOp → TokenKind

pub record Token : Type 0 where
  pub kind : TokenKind
  pub span : Span

abbrev pub token : TokenKind → ℕ → ℕ → Token
token kind start end = record { kind = kind; span = record { start = start; end = end } }

-- What was read of an operator, the next position, and the characters from there on.
pub record Scanned (A : Type 0) : Type 0 where
  pub value : A
  pub next : ℕ
  pub rest : Chars

abbrev pub scanned : {A : Type 0} → A → ℕ → Chars → Scanned A
scanned value next rest = record { value = value; next = next; rest = rest }

-- `find_closing_bracket`: the text before the bracket, and what follows it.
unfoldable pub bracket_loop : ℕ → ℕ → Chars → Chars → RcResult (Scanned Chars)
bracket_loop start i text [] = at "unterminated fd specifier" start i
bracket_loop start i text (c ∷ cs) = elim (c == b']') [
  | true ↦ ok (scanned text (i + 1) cs)
  | false ↦ bracket_loop start (i + 1) (text ++ c ∷ []) cs
]

unfoldable pub pipe_spec_of : Chars → PipeSpec
pipe_spec_of text = elim (split_once b'=' text) [
  | some (left, right) ↦ record {
    from_fd = unwrap_or (parse_u32 left) 1;
    to_fd = unwrap_or (parse_u32 right) 0;
  }
  | none ↦ record { from_fd = unwrap_or (parse_u32 text) 1; to_fd = 0 }
]

-- What follows a bar that is not followed by another.
unfoldable pub parse_pipe_spec : ℕ → Chars → RcResult (Scanned (Option PipeSpec))
unfolding bracket_loop pipe_spec_of
parse_pipe_spec start [] = ok (scanned none start [])
parse_pipe_spec start (c ∷ cs) = elim (c == b'[') [
  | true ↦ bracket_loop start (start + 1) [] cs >>= λ found.
      ok (scanned (some (pipe_spec_of found.value)) found.next found.rest)
  | false ↦ ok (scanned none start (c ∷ cs))
]

-- The descriptor that is duplicated; nothing stands for a close.
unfoldable pub dup_from : ℕ → Chars → Option ℕ
dup_from fd [] = none
dup_from fd (c ∷ cs) = some (unwrap_or (parse_u32 (c ∷ cs)) fd)

-- What a text in brackets makes of an operator.
unfoldable pub redirect_of : ℕ → RedirectMode → Chars → RedirectOp
unfolding dup_from
redirect_of fd mode text = elim (split_once b'=' text) [
  | some (left, right) ↦
      let fd' = unwrap_or (parse_u32 left) fd in
      record { fd = fd'; mode = RedirectMode.dup (dup_from fd' right) }
  | none ↦ record { fd = unwrap_or (parse_u32 text) fd; mode = mode }
]

-- The part of `parse_redirect` behind the operator itself.
unfoldable pub redirect_fd : ℕ → RedirectMode → ℕ → Chars → RcResult (Scanned RedirectOp)
unfolding bracket_loop redirect_of
redirect_fd fd mode i [] = ok (scanned (record { fd = fd; mode = mode }) i [])
redirect_fd fd mode i (c ∷ cs) = elim (c == b'[') [
  | true ↦ bracket_loop i (i + 1) [] cs >>= λ found.
      ok (scanned (redirect_of fd mode found.value) found.next found.rest)
  | false ↦ ok (scanned (record { fd = fd; mode = mode }) i (c ∷ cs))
]

-- The operator doubled: `>>` and `<<`.
unfoldable pub redirect_mode :
    ℕ → ℕ → RedirectMode → RedirectMode → ℕ → Chars → RcResult (Scanned RedirectOp)
unfolding redirect_fd
redirect_mode op fd one two i [] = redirect_fd fd one i []
redirect_mode op fd one two i (c ∷ cs) = elim (c == op) [
  | true ↦ redirect_fd fd two (i + 1) cs
  | false ↦ redirect_fd fd one i (c ∷ cs)
]

unfoldable pub parse_redirect : ℕ → ℕ → Chars → RcResult (Scanned RedirectOp)
unfolding redirect_mode
parse_redirect op start cs =
    if op == b'<'
    then redirect_mode op 0 RedirectMode.read RedirectMode.here (start + 1) cs
    else redirect_mode op 1 RedirectMode.write RedirectMode.append (start + 1) cs
