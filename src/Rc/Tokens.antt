-- ===== src/Rc/Tokens.antt =====
-- Each token of the lexer of crates/star9-rc/src/lib.rs covers what it takes from the source.
use star.Base.{
  ℕ, ◌+◌, ◌≡◌, refl, subst, Bool, true, false, ◌||◌, ◌==◌, [], ◌∷◌, arith, Bool-cases, Option-cases,
  Option, some, inl, inr, if◌then◌else◌,
}
use star.Rc.Chars.{Chars, ok}
use star.Rc.Scan.{read_word}
use star.Rc.Operators.{TokenKind, Token, token, Scanned, scanned, parse_pipe_spec, parse_redirect}
use star.Rc.Lex.{single, tokens_from, lex_amp, lex_pipe_spec, lex_pipe, lex_word, lex_token}
use star.Rc.Taken.{Fine, >>=-Fine, Took}
use star.Rc.Took.{read_word-Took}
use star.Rc.Passed.{
  Moved, Moved-none, Moved-one, Passed, parse_pipe_spec-Passed, parse_redirect-Passed,
}

-- A word is the text that it stands for.
abbrev pub Spells : TokenKind → Chars → Type 0
Spells (TokenKind.word w) text = w ≡ text
Spells _ text = Unit

-- A token that was scanned at a position: it is not empty, and its span is what was taken.
pub record IsToken (i : ℕ) (cs : Chars) (found : Scanned Token) : Type 0 where
  pub moved : Passed 1 i cs found
  pub start : found.value.span.start ≡ i
  pub end : found.value.span.end ≡ found.next
  pub spells : Spells found.value.kind moved.taken

tokens_from-IsToken :
    {A : Type 0} (kind : A → TokenKind) (i : ℕ) (cs : Chars) (found : Scanned A)
    (moved : Passed 1 i cs found)
    → Spells (kind found.value) moved.taken
    → IsToken i cs (tokens_from kind i found)
unfolding tokens_from
tokens_from-IsToken kind i cs found moved s = record {
  moved = moved;
  start = refl;
  end = refl;
  spells = s;
}

-- An operator of one or two characters, or with a text in brackets.
operator :
    (kind : TokenKind) (i : ℕ) (cs : Chars) (next : ℕ) (rest : Chars)
    (moved : Moved 1 i cs next rest)
    → Spells kind moved.taken
    → IsToken i cs (scanned (token kind i next) next rest)
operator kind i cs next rest moved s = record {
  moved = moved;
  start = refl;
  end = refl;
  spells = s;
}

pub one_char : (i c : ℕ) (cs : Chars) → Moved 1 i (c ∷ cs) (i + 1) cs
one_char i c cs = Moved-one 0 1 i c cs _ _ (omega arith) (Moved-none (i + 1) cs)

two_chars : (i c d : ℕ) (cs : Chars) → Moved 1 i (c ∷ d ∷ cs) (i + 2) cs
two_chars i c d cs = record {
  taken = c ∷ d ∷ [];
  split = refl;
  position = omega arith;
  enough = omega arith;
}

abbrev NoWord : Option TokenKind → Type 0
NoWord (some (TokenKind.word w)) = ⊥
NoWord _ = Unit

if-NoWord : (b : Bool) (x y : Option TokenKind) → NoWord x → NoWord y → NoWord (if b then x else y)
if-NoWord true x y p q = p
if-NoWord false x y p q = q

single-NoWord : (c : ℕ) → NoWord (single c)
unfolding single
single-NoWord c = if-NoWord (c == b';') _ _ tt (
    if-NoWord (c == b'{') _ _ tt (
      if-NoWord (c == b'}') _ _ tt (
        if-NoWord (c == b'(') _ _ tt
          (if-NoWord (c == b')') _ _ tt (if-NoWord (c == b'!') _ _ tt tt)))))

Spells-other : (kind : TokenKind) (text : Chars) → NoWord (some kind) → Spells kind text
Spells-other (TokenKind.word w) text h = elim h [ ]
Spells-other _ text h = tt

single-Spells : (c : ℕ) (kind : TokenKind) (text : Chars) → single c ≡ some kind → Spells kind text
single-Spells c kind text h = Spells-other kind text (subst NoWord h (single-NoWord c))

lex_amp-IsToken : (i c : ℕ) (cs : Chars) → IsToken i (c ∷ cs) (lex_amp i cs)
unfolding lex_amp
lex_amp-IsToken i c [] = operator TokenKind.amp i _ _ _ (one_char i c []) tt
lex_amp-IsToken i c (d ∷ cs) = elim (Bool-cases (d == b'&')) [
  | inl e ↦ rw (lex_amp, e) (operator TokenKind.and_and i _ _ _ (two_chars i c d cs) tt)
  | inr e ↦ rw (lex_amp, e) (operator TokenKind.amp i _ _ _ (one_char i c (d ∷ cs)) tt)
]

lex_pipe_spec-IsToken : (i c : ℕ) (cs : Chars) → Fine (IsToken i (c ∷ cs)) (lex_pipe_spec i cs)
unfolding lex_pipe_spec
lex_pipe_spec-IsToken i c cs =
    >>=-Fine (Passed 0 (i + 1) cs) (IsToken i (c ∷ cs)) (parse_pipe_spec (i + 1) cs)
      (λ found. ok (tokens_from TokenKind.pipe i found)) (parse_pipe_spec-Passed (i + 1) cs)
      (λ found t.
        tokens_from-IsToken TokenKind.pipe i (c ∷ cs) found
          (Moved-one 0 1 i c cs _ _ (omega arith) t) tt)

lex_pipe-IsToken : (i c : ℕ) (cs : Chars) → Fine (IsToken i (c ∷ cs)) (lex_pipe i cs)
unfolding lex_pipe
lex_pipe-IsToken i c [] = lex_pipe_spec-IsToken i c []
lex_pipe-IsToken i c (d ∷ cs) = elim (Bool-cases (d == b'|')) [
  | inl e ↦ rw (lex_pipe, e) (operator TokenKind.or_or i _ _ _ (two_chars i c d cs) tt)
  | inr e ↦ rw (lex_pipe, e) (lex_pipe_spec-IsToken i c (d ∷ cs))
]

lex_word-IsToken : (i : ℕ) (cs : Chars) → Fine (IsToken i cs) (lex_word i cs)
unfolding lex_word
lex_word-IsToken i cs =
    >>=-Fine (Took 1 i [] cs) (IsToken i cs) (read_word i cs)
      (λ found. ok (tokens_from TokenKind.word i (scanned found.text found.next found.rest)))
      (read_word-Took i cs)
      (λ found t.
        tokens_from-IsToken TokenKind.word i cs (scanned found.text found.next found.rest)
          (record { taken = t.taken; split = t.split; position = t.position; enough = t.enough })
          t.text)

pub lex_token-IsToken : (i c : ℕ) (cs : Chars) → Fine (IsToken i (c ∷ cs)) (lex_token i c cs)
unfolding lex_token
lex_token-IsToken i c cs = elim (Option-cases (single c)) [
  | inr (kind, e) ↦
      rw (lex_token, e) (operator kind i _ _ _ (one_char i c cs) (single-Spells c kind _ e))
  | inl n ↦ elim (Bool-cases (c == b'&')) [
    | inl e ↦ rw (lex_token, n, e) (lex_amp-IsToken i c cs)
    | inr e ↦ elim (Bool-cases (c == b'|')) [
      | inl f ↦ rw (lex_token, n, e, f) (lex_pipe-IsToken i c cs)
      | inr f ↦ elim (Bool-cases (c == b'<' || c == b'>')) [
        | inl g ↦
            rw (lex_token, n, e, f, g)
              (>>=-Fine (Passed 1 i (c ∷ cs)) (IsToken i (c ∷ cs)) (parse_redirect c i cs)
                (λ found. ok (tokens_from TokenKind.redirect i found))
                (parse_redirect-Passed c i cs)
                (λ found t. tokens_from-IsToken TokenKind.redirect i (c ∷ cs) found t tt))
        | inr g ↦ rw (lex_token, n, e, f, g) (lex_word-IsToken i (c ∷ cs))
      ]
    ]
  ]
]
