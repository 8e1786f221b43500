-- ===== src/Rc/Steps.antt =====
-- What the operations on single tokens of crates/star9-rc/src/lib.rs take.
use star.Base.{
  ℕ, zero, suc, ◌<◌, ◌≡◌, refl, Bool, true, false, List, [], ◌∷◌, length, arith, Bool-cases, inl,
  inr, String, some, codes, Option-cases,
}
use star.Rc.Chars.{Chars}
use star.Rc.Operators.{TokenKind, Token}
use star.Rc.Taken.{Fine}
use star.Rc.Parse.{
  Parse, ParserState, ◌>>=◌, pure, is_lbrace, is_rbrace, is_lparen, is_rparen, is_separator,
  is_word, word_of, take_if, consume_separator, match_word, drop_separators, skip_separators,
  expect_symbol, expect_word, expect_any_word, many_loop, many, when,
}
use star.Rc.Simple.{any_word}
use star.Rc.Ast.{new_word}
use star.Rc.Nested.{
  Bracket, opens, closes, is_bracket, Nested, Nests, Advances, Nests-pure, Nests->>=,
  Advances-first, bind-less,
}

-- A test that no bracket passes.
abbrev pub Passes : (TokenKind → Bool) → Type 0
Passes test = (kind : TokenKind) → test kind ≡ true → is_bracket kind ≡ false

pub is_separator-Passes : Passes is_separator
unfolding is_separator is_bracket is_lbrace is_rbrace is_lparen is_rparen
is_separator-Passes TokenKind.semi e = refl
is_separator-Passes TokenKind.newline e = refl
is_separator-Passes (TokenKind.word w) e = refl
is_separator-Passes TokenKind.and_and e = refl
is_separator-Passes TokenKind.or_or e = refl
is_separator-Passes TokenKind.amp e = refl
is_separator-Passes TokenKind.bang e = refl
is_separator-Passes TokenKind.lbrace e = absurd (cc (e))
is_separator-Passes TokenKind.rbrace e = absurd (cc (e))
is_separator-Passes TokenKind.lparen e = absurd (cc (e))
is_separator-Passes TokenKind.rparen e = absurd (cc (e))
is_separator-Passes (TokenKind.pipe s) e = refl
is_separator-Passes (TokenKind.redirect op) e = refl

pub is_word-Passes : (w : Chars) → Passes (is_word w)
unfolding is_word is_bracket is_lbrace is_rbrace is_lparen is_rparen
is_word-Passes v (TokenKind.word w) e = refl
is_word-Passes v _ e = absurd (cc (e))

-- One token that is not a bracket.
one :
    (o : List Bracket) (t : Token) (ts : List Token)
    → is_bracket t.kind ≡ false
    → Nested o (t ∷ ts) o ts
one o t ts e = Nested.other t e Nested.stay

pub take_if-Nests :
    (k : ℕ) (o : List Bracket) (test : TokenKind → Bool) → Passes test → Nests k o o (take_if test)
unfolding take_if
take_if-Nests k o test p st l = go st.tokens
  where
    go :
        (ts : List Token)
        → Fine (λ r. Nested o ts o r.1.tokens) (take_if test (record st { tokens = ts }))
    go [] = Nested.stay
    go (t ∷ ts) = elim (Bool-cases (test t.kind)) [
      | inl e ↦ rw (take_if, e) (one o t ts (p t.kind e))
      | inr e ↦ rw (take_if, e) Nested.stay
    ]

pub consume_separator-Nests : (k : ℕ) (o : List Bracket) → Nests k o o consume_separator
unfolding consume_separator
consume_separator-Nests k o = take_if-Nests k o is_separator is_separator-Passes

pub match_word-Nests : (k : ℕ) (o : List Bracket) (w : String) → Nests k o o (match_word w)
unfolding match_word
match_word-Nests k o w = take_if-Nests k o (is_word (codes w)) (is_word-Passes (codes w))

drop_separators-Nested : (o : List Bracket) (ts : List Token) → Nested o ts o (drop_separators ts)
unfolding drop_separators
drop_separators-Nested o [] = Nested.stay
drop_separators-Nested o (t ∷ ts) = elim (Bool-cases (is_separator t.kind)) [
  | inl e ↦
      rw (drop_separators, e)
        (Nested.other t (is_separator-Passes t.kind e) (drop_separators-Nested o ts))
  | inr e ↦ rw (drop_separators, e) Nested.stay
]

pub skip_separators-Nests : (k : ℕ) (o : List Bracket) → Nests k o o skip_separators
unfolding skip_separators
skip_separators-Nests k o st l = drop_separators-Nested o st.tokens

pub expect_symbol-Advances :
    (k : ℕ) (o o' : List Bracket) (test : TokenKind → Bool) (label : String)
    → ((t : Token) (ts : List Token) → test t.kind ≡ true → Nested o (t ∷ ts) o' ts)
    → Advances k o o' (expect_symbol test label)
unfolding expect_symbol
expect_symbol-Advances k o o' test label h st l = go st.tokens
  where
    go :
        (ts : List Token)
        → Fine
            (λ r. Nested o ts o' r.1.tokens × (length r.1.tokens < length ts))
            (expect_symbol test label (record st { tokens = ts }))
    go [] = tt
    go (t ∷ ts) = elim (Bool-cases (test t.kind)) [
      | inl e ↦ rw (expect_symbol, e) (h t ts e, omega arith)
      | inr e ↦ rw (expect_symbol, e) tt
    ]

pub open-Advances :
    (k : ℕ) (o : List Bracket) (b : Bracket) (label : String)
    → Advances k o (b ∷ o) (expect_symbol (opens b) label)
open-Advances k o b label =
    expect_symbol-Advances k o (b ∷ o) (opens b) label (λ t ts e. Nested.opening b t e Nested.stay)

pub close-Advances :
    (k : ℕ) (o : List Bracket) (b : Bracket) (label : String)
    → Advances k (b ∷ o) o (expect_symbol (closes b) label)
close-Advances k o b label =
    expect_symbol-Advances k (b ∷ o) o (closes b) label (λ t ts e. Nested.closing b t e Nested.stay)

pub expect_word-Advances : (k : ℕ) (o : List Bracket) (w : String) → Advances k o o (expect_word w)
unfolding expect_word
expect_word-Advances k o w st l = go st.tokens
  where
    go :
        (ts : List Token)
        → Fine
            (λ r. Nested o ts o r.1.tokens × (length r.1.tokens < length ts))
            (expect_word w (record st { tokens = ts }))
    go [] = tt
    go (t ∷ ts) = elim (Bool-cases (is_word (codes w) t.kind)) [
      | inl e ↦ rw (expect_word, e) (one o t ts (is_word-Passes (codes w) t.kind e), omega arith)
      | inr e ↦ rw (expect_word, e) tt
    ]

word_of-other : (kind : TokenKind) (w : Chars) → word_of kind ≡ some w → is_bracket kind ≡ false
unfolding word_of is_bracket is_lbrace is_rbrace is_lparen is_rparen
word_of-other (TokenKind.word v) w e = refl
word_of-other _ w e = absurd (cc (e))

pub expect_any_word-Advances : (k : ℕ) (o : List Bracket) → Advances k o o expect_any_word
unfolding expect_any_word
expect_any_word-Advances k o st l = go st.tokens
  where
    go :
        (ts : List Token)
        → Fine
            (λ r. Nested o ts o r.1.tokens × (length r.1.tokens < length ts))
            (expect_any_word (record st { tokens = ts }))
    go [] = tt
    go (t ∷ ts) = elim (Option-cases (word_of t.kind)) [
      | inl e ↦ rw (expect_any_word, e) tt
      | inr (w, e) ↦ rw (expect_any_word, e) (one o t ts (word_of-other t.kind w e), omega arith)
    ]

pub any_word-Advances : (k : ℕ) (o : List Bracket) → Advances k o o any_word
unfolding any_word
any_word-Advances k o =
    Advances-first k o o o expect_any_word (λ raw. pure (new_word raw))
      (expect_any_word-Advances k o) (λ raw. Nests-pure k o (new_word raw))

many_loop-Fine :
    {A : Type 0} (fuel k : ℕ) (o : List Bracket) (goes_on : List Token → Bool) (item : Parse A)
    → Advances k o o item
    → (st : ParserState) → length st.tokens < fuel
    → length st.tokens < k
    → Fine (λ r. Nested o st.tokens o r.1.tokens) (many_loop fuel goes_on item st)
unfolding many_loop
many_loop-Fine zero k o goes_on item n st f l = absurd (omega (arith, f))
many_loop-Fine {A} (suc fuel) k o goes_on item n st f l = elim (Bool-cases (goes_on st.tokens)) [
  | inl e ↦
      rw (many_loop, e)
        (bind-less o o o item _ st (n st l) (λ a.
          Nests->>= (length st.tokens) o o o (many_loop fuel goes_on item) (λ more. pure (a ∷ more))
            (λ st' l'.
              many_loop-Fine fuel k o goes_on item n st' (omega (arith, f, l'))
                (omega (arith, l, l')))
            (λ more. Nests-pure (length st.tokens) o (a ∷ more))))
  | inr e ↦ rw (many_loop, e) Nested.stay
]

pub many-Nests :
    {A : Type 0} (k : ℕ) (o : List Bracket) (goes_on : List Token → Bool) (item : Parse A)
    → Advances k o o item
    → Nests k o o (many goes_on item)
unfolding many
many-Nests k o goes_on item n st l =
    many_loop-Fine (suc (length st.tokens)) k o goes_on item n st (omega arith) l

pub when-Nests :
    {A : Type 0} (k : ℕ) (o : List Bracket) (flag : Bool) (m : Parse (List A))
    → Nests k o o m
    → Nests k o o (when flag m)
unfolding when
when-Nests k o true m n st l = n st l
when-Nests k o false m n st l = Nested.stay

pub skipped-Nests :
    {A : Type 0} (k : ℕ) (o o' : List Bracket) (m : Parse A)
    → Nests k o o' m
    → Nests k o o' (skip_separators >>= (λ skipped. m))
skipped-Nests k o o' m n =
    Nests->>= k o o o' skip_separators (λ skipped. m) (skip_separators-Nests k o) (λ skipped. n)
