-- ===== src/Rc/Parse.antt =====
-- The state of `Parser` in crates/star9-rc/src/lib.rs, and its operations on single tokens.
use star.Base.{
  ℕ, zero, suc, Bool, true, false, List, [], ◌∷◌, ◌++◌, length, String, codes, bytes_eq, Option,
  none, some,
}
use star.Vfs.Map.{Map}
use star.Rc.Chars.{Chars, RcError, RcResult, ok, err, out_of_fuel, plain_error}
use star.Rc.Operators.{TokenKind, Token}
use star.Rc.Ast.{HereDoc}

-- `Parser`, with the tokens from its position on.
pub record ParserState : Type 0 where
  pub tokens : List Token
  pub here_docs : Map HereDoc

-- A method of `Parser`.
abbrev pub Parse : Type 0 → Type 0
Parse A = ParserState → RcResult (A × ParserState)

infixl 5 ◌>>=◌
-- `self.m()?` and the rest.
unfoldable pub ◌>>=◌ : {A B : Type 0} → Parse A → (A → Parse B) → Parse B
◌>>=◌ m f st = elim (m st) [
  | ok (a, st') ↦ f a st'
  | err e ↦ err e
  | RcResult.out_of_fuel ↦ RcResult.out_of_fuel
]

unfoldable pub pure : {A : Type 0} → A → Parse A
pure a st = ok (a, st)

unfoldable pub fail : {A : Type 0} → RcError → Parse A
fail e st = err e

unfoldable pub is_lbrace : TokenKind → Bool
is_lbrace TokenKind.lbrace = true
is_lbrace _ = false

unfoldable pub is_rbrace : TokenKind → Bool
is_rbrace TokenKind.rbrace = true
is_rbrace _ = false

unfoldable pub is_lparen : TokenKind → Bool
is_lparen TokenKind.lparen = true
is_lparen _ = false

unfoldable pub is_rparen : TokenKind → Bool
is_rparen TokenKind.rparen = true
is_rparen _ = false

unfoldable pub is_separator : TokenKind → Bool
is_separator TokenKind.semi = true
is_separator TokenKind.newline = true
is_separator _ = false

unfoldable pub is_word : Chars → TokenKind → Bool
is_word expected (TokenKind.word w) = bytes_eq w expected
is_word expected _ = false

-- `matches!` on the next token, which is none at the end.
unfoldable pub sees : (TokenKind → Bool) → List Token → Bool
sees test [] = false
sees test (t ∷ ts) = test t.kind

-- The same, where the end counts too.
unfoldable pub sees_or_end : (TokenKind → Bool) → List Token → Bool
sees_or_end test [] = true
sees_or_end test (t ∷ ts) = test t.kind

-- The token that passes the test is taken.
unfoldable pub take_if : (TokenKind → Bool) → Parse Bool
take_if test st = elim st.tokens [
  | [] ↦ ok (false, st)
  | t ∷ ts ↦ elim (test t.kind) [
    | true ↦ ok (true, record st { tokens = ts })
    | false ↦ ok (false, st)
  ]
]

-- `consume_separator`
unfoldable pub consume_separator : Parse Bool
unfolding take_if is_separator
consume_separator = take_if is_separator

-- `match_word`
unfoldable pub match_word : String → Parse Bool
unfolding take_if is_word
match_word expected = take_if (is_word (codes expected))

unfoldable pub drop_separators : List Token → List Token
unfolding is_separator
drop_separators [] = []
drop_separators (t ∷ ts) = elim (is_separator t.kind) [ true ↦ drop_separators ts | false ↦ t ∷ ts ]

unfoldable pub skip_separators : Parse (Unit {0})
unfolding drop_separators
skip_separators st = ok (tt, record st { tokens = drop_separators st.tokens })

unfoldable pub expect_symbol : (TokenKind → Bool) → String → Parse (Unit {0})
expect_symbol test label st = elim st.tokens [
  | [] ↦ err (record { message = codes "expected " ++ codes label; span = none })
  | t ∷ ts ↦ elim (test t.kind) [
    | true ↦ ok (tt, record st { tokens = ts })
    | false ↦ err (record { message = codes "expected " ++ codes label; span = some t.span })
  ]
]

unfoldable pub expect_word : String → Parse (Unit {0})
unfolding is_word
expect_word expected st = elim st.tokens [
  | [] ↦ err (record { message = codes "expected " ++ codes expected; span = none })
  | t ∷ ts ↦ elim (is_word (codes expected) t.kind) [
    | true ↦ ok (tt, record st { tokens = ts })
    | false ↦ err (record { message = codes "expected " ++ codes expected; span = none })
  ]
]

unfoldable pub word_of : TokenKind → Option Chars
word_of (TokenKind.word w) = some w
word_of _ = none

unfoldable pub expect_any_word : Parse Chars
unfolding word_of
expect_any_word st = elim st.tokens [
  | [] ↦ err (plain_error "expected word")
  | t ∷ ts ↦ elim (word_of t.kind) [
    | some w ↦ ok (w, record st { tokens = ts })
    | none ↦ err (plain_error "expected word")
  ]
]

-- What is read only if the flag says so.
unfoldable pub when : {A : Type 0} → Bool → Parse (List A) → Parse (List A)
when true m st = m st
when false m st = ok ([], st)

-- `while` on a test of the tokens that are left, with at most so many rounds.
unfoldable pub many_loop : {A : Type 0} → ℕ → (List Token → Bool) → Parse A → Parse (List A)
unfolding ◌>>=◌ pure
many_loop zero goes_on item st = out_of_fuel
many_loop (suc fuel) goes_on item st = elim (goes_on st.tokens) [
  | true ↦ (do a ← item; more ← many_loop fuel goes_on item; pure (a ∷ more)) st
  | false ↦ ok ([], st)
]

-- Every round takes a token at least.
unfoldable pub many : {A : Type 0} → (List Token → Bool) → Parse A → Parse (List A)
unfolding many_loop
many goes_on item st = many_loop (suc (length st.tokens)) goes_on item st
