-- ===== src/Rc/Nested.antt =====
-- What the parser of crates/star9-rc/src/lib.rs takes from its tokens: braces and parentheses that nest.
use star.Base.{ℕ, suc, ◌≤◌, ◌<◌, ◌≡◌, Bool, true, false, ◌||◌, List, ◌∷◌, length, arith}
use star.Rc.Chars.{RcResult, ok, err, out_of_fuel}
use star.Rc.Operators.{TokenKind, Token}
use star.Rc.Taken.{Fine}
use star.Rc.Parse.{Parse, ParserState, ◌>>=◌, pure, is_lbrace, is_rbrace, is_lparen, is_rparen}

pub data Bracket : Type 0 where
  brace paren : Bracket

unfoldable pub opens : Bracket → TokenKind → Bool
unfolding is_lbrace is_lparen
opens Bracket.brace kind = is_lbrace kind
opens Bracket.paren kind = is_lparen kind

unfoldable pub closes : Bracket → TokenKind → Bool
unfolding is_rbrace is_rparen
closes Bracket.brace kind = is_rbrace kind
closes Bracket.paren kind = is_rparen kind

unfoldable pub is_bracket : TokenKind → Bool
unfolding is_lbrace is_lparen is_rbrace is_rparen
is_bracket kind = is_lbrace kind || is_rbrace kind || is_lparen kind || is_rparen kind

-- Between the two lists of tokens that were left, every bracket was closed by its own kind, but for those
-- that were open before and are not now, or the other way.
pub data Nested : List Bracket → List Token → List Bracket → List Token → Type 0 where
  stay : {open' : List Bracket} {ts : List Token} → Nested open' ts open' ts
  other :
      {o o' : List Bracket} {ts ts' : List Token} (t : Token)
      → is_bracket t.kind ≡ false
      → Nested o ts o' ts'
      → Nested o (t ∷ ts) o' ts'
  opening :
      {o o' : List Bracket} {ts ts' : List Token} (b : Bracket) (t : Token)
      → opens b t.kind ≡ true
      → Nested (b ∷ o) ts o' ts'
      → Nested o (t ∷ ts) o' ts'
  closing :
      {o o' : List Bracket} {ts ts' : List Token} (b : Bracket) (t : Token)
      → closes b t.kind ≡ true
      → Nested o ts o' ts'
      → Nested (b ∷ o) (t ∷ ts) o' ts'

pub Nested-trans :
    (o o' o'' : List Bracket) (ts ts' ts'' : List Token)
    → Nested o ts o' ts'
    → Nested o' ts' o'' ts''
    → Nested o ts o'' ts''
Nested-trans _ _ o'' _ _ ts'' Nested.stay m = m
Nested-trans _ _ o'' _ _ ts'' (Nested.other {o} {o'} {ts} {ts'} t e n) m =
    Nested.other t e (Nested-trans o o' o'' ts ts' ts'' n m)
Nested-trans _ _ o'' _ _ ts'' (Nested.opening {o} {o'} {ts} {ts'} b t e n) m =
    Nested.opening b t e (Nested-trans (b ∷ o) o' o'' ts ts' ts'' n m)
Nested-trans _ _ o'' _ _ ts'' (Nested.closing {o} {o'} {ts} {ts'} b t e n) m =
    Nested.closing b t e (Nested-trans o o' o'' ts ts' ts'' n m)

pub Nested-length :
    (o o' : List Bracket) (ts ts' : List Token) → Nested o ts o' ts' → length ts' ≤ length ts
Nested-length _ _ _ _ Nested.stay = omega arith
Nested-length _ _ _ _ (Nested.other {o} {o'} {ts} {ts'} t e n) =
    omega (arith, Nested-length o o' ts ts' n)
Nested-length _ _ _ _ (Nested.opening {o} {o'} {ts} {ts'} b t e n) =
    omega (arith, Nested-length (b ∷ o) o' ts ts' n)
Nested-length _ _ _ _ (Nested.closing {o} {o'} {ts} {ts'} b t e n) =
    omega (arith, Nested-length o o' ts ts' n)

-- On fewer than `k` tokens the method ends, and what it takes nests.
abbrev pub Nests : {A : Type 0} → ℕ → List Bracket → List Bracket → Parse A → Type 0
Nests k o o' p =
    (st : ParserState) → length st.tokens < k → Fine (λ r. Nested o st.tokens o' r.1.tokens) (p st)

-- The same, and it takes one token at least.
abbrev pub Advances : {A : Type 0} → ℕ → List Bracket → List Bracket → Parse A → Type 0
Advances k o o' p =
    (st : ParserState)
    → length st.tokens < k
    → Fine (λ r. Nested o st.tokens o' r.1.tokens × (length r.1.tokens < length st.tokens)) (p st)

pub Nests-pure : {A : Type 0} (k : ℕ) (o : List Bracket) (a : A) → Nests k o o (pure a)
unfolding pure
Nests-pure k o a st h = Nested.stay

pub Fine-trans :
    {A : Type 0} (o o' o'' : List Bracket) (ts ts' : List Token) (r : RcResult (A × ParserState))
    → Nested o ts o' ts'
    → Fine (λ r. Nested o' ts' o'' r.1.tokens) r
    → Fine (λ r. Nested o ts o'' r.1.tokens) r
Fine-trans o o' o'' ts ts' (ok r) n m = Nested-trans o o' o'' ts ts' r.1.tokens n m
Fine-trans o o' o'' ts ts' (err e) n m = tt
Fine-trans o o' o'' ts ts' out_of_fuel n m = elim m [ ]

Fine-bind :
    {A B : Type 0} (k : ℕ) (o o' o'' : List Bracket) (st : ParserState) (f : A → Parse B)
    (r : RcResult (A × ParserState))
    → Fine (λ r. Nested o st.tokens o' r.1.tokens × (length r.1.tokens < k)) r
    → ((a : A) → Nests k o' o'' (f a))
    → Fine
        (λ r. Nested o st.tokens o'' r.1.tokens)
        (elim r [
          | ok (a, st') ↦ f a st'
          | err e ↦ err e
          | RcResult.out_of_fuel ↦ RcResult.out_of_fuel
        ])
Fine-bind k o o' o'' st f (ok (a, st')) (n, l) h =
    Fine-trans o o' o'' st.tokens st'.tokens (f a st') n (h a st' l)
Fine-bind k o o' o'' st f (err e) n h = tt
Fine-bind k o o' o'' st f out_of_fuel n h = elim n [ ]

pub Fine-below :
    {A : Type 0} (k : ℕ) (o o' : List Bracket) (st : ParserState) (r : RcResult (A × ParserState))
    → length st.tokens < k
    → Fine (λ r. Nested o st.tokens o' r.1.tokens) r
    → Fine (λ r. Nested o st.tokens o' r.1.tokens × (length r.1.tokens < k)) r
Fine-below k o o' st (ok (a, st')) h n =
    (n, omega (arith, h, Nested-length o o' st.tokens st'.tokens n))
Fine-below k o o' st (err e) h n = tt
Fine-below k o o' st out_of_fuel h n = elim n [ ]

Fine-advanced :
    {A : Type 0} (k : ℕ) (o o' : List Bracket) (st : ParserState) (r : RcResult (A × ParserState))
    → length st.tokens < suc k
    → Fine (λ r. Nested o st.tokens o' r.1.tokens × (length r.1.tokens < length st.tokens)) r
    → Fine (λ r. Nested o st.tokens o' r.1.tokens × (length r.1.tokens < k)) r
Fine-advanced k o o' st (ok (a, st')) h (n, l) = (n, omega (arith, h, l))
Fine-advanced k o o' st (err e) h n = tt
Fine-advanced k o o' st out_of_fuel h n = elim n [ ]

-- A step, and what follows it.
pub Nests->>= :
    {A B : Type 0} (k : ℕ) (o o' o'' : List Bracket) (p : Parse A) (f : A → Parse B)
    → Nests k o o' p
    → ((a : A) → Nests k o' o'' (f a))
    → Nests k o o'' (p >>= f)
unfolding ◌>>=◌
Nests->>= k o o' o'' p f n h st l =
    Fine-bind k o o' o'' st f (p st) (Fine-below k o o' st (p st) l (n st l)) h

-- A step that takes a token, and what follows it, which has one token less.
pub Nests-first :
    {A B : Type 0} (k : ℕ) (o o' o'' : List Bracket) (p : Parse A) (f : A → Parse B)
    → Advances (suc k) o o' p
    → ((a : A) → Nests k o' o'' (f a))
    → Nests (suc k) o o'' (p >>= f)
unfolding ◌>>=◌
Nests-first k o o' o'' p f n h st l =
    Fine-bind k o o' o'' st f (p st) (Fine-advanced k o o' st (p st) l (n st l)) h

Fine-less :
    {B : Type 0} (o o' o'' : List Bracket) (st st' : ParserState) (r : RcResult (B × ParserState))
    → Nested o st.tokens o' st'.tokens
    → length st'.tokens < length st.tokens
    → Fine (λ r. Nested o' st'.tokens o'' r.1.tokens) r
    → Fine (λ r. Nested o st.tokens o'' r.1.tokens × (length r.1.tokens < length st.tokens)) r
Fine-less o o' o'' st st' (ok (b, st2)) n l m = (
  Nested-trans o o' o'' st.tokens st'.tokens st2.tokens n m,
  omega (arith, l, Nested-length o' o'' st'.tokens st2.tokens m),
)
Fine-less o o' o'' st st' (err e) n l m = tt
Fine-less o o' o'' st st' out_of_fuel n l m = elim m [ ]

-- The whole takes a token too.
pub Advances-first :
    {A B : Type 0} (k : ℕ) (o o' o'' : List Bracket) (p : Parse A) (f : A → Parse B)
    → Advances k o o' p
    → ((a : A) → Nests k o' o'' (f a))
    → Advances k o o'' (p >>= f)
unfolding ◌>>=◌
Advances-first {A} {B} k o o' o'' p f n h st l = go (p st) (n st l)
  where
    go :
        (r : RcResult (A × ParserState))
        → Fine (λ r. Nested o st.tokens o' r.1.tokens × (length r.1.tokens < length st.tokens)) r
        → Fine
            (λ r. Nested o st.tokens o'' r.1.tokens × (length r.1.tokens < length st.tokens))
            (elim r [
              | ok (a, st') ↦ f a st'
              | err e ↦ err e
              | RcResult.out_of_fuel ↦ RcResult.out_of_fuel
            ])
    go (ok (a, st')) (m, j) =
        Fine-less o o' o'' st st' (f a st') m j (h a st' (omega (arith, l, j)))
    go (err e) m = tt
    go out_of_fuel m = elim m [ ]

-- At one state: what follows has fewer tokens than there are now.
pub bind-less :
    {A B : Type 0} (o o' o'' : List Bracket) (p : Parse A) (f : A → Parse B) (st : ParserState)
    → Fine (λ r. Nested o st.tokens o' r.1.tokens × (length r.1.tokens < length st.tokens)) (p st)
    → ((a : A) → Nests (length st.tokens) o' o'' (f a))
    → Fine (λ r. Nested o st.tokens o'' r.1.tokens) ((p >>= f) st)
unfolding ◌>>=◌
bind-less o o' o'' p f st n h = Fine-bind (length st.tokens) o o' o'' st f (p st) n h

pub Advances-Nests :
    {A : Type 0} (k : ℕ) (o o' : List Bracket) (p : Parse A) → Advances k o o' p → Nests k o o' p
Advances-Nests {A} k o o' p n st l = go (p st) (n st l)
  where
    go :
        (r : RcResult (A × ParserState))
        → Fine (λ r. Nested o st.tokens o' r.1.tokens × (length r.1.tokens < length st.tokens)) r
        → Fine (λ r. Nested o st.tokens o' r.1.tokens) r
    go (ok r) (m, _) = m
    go (err e) m = tt
    go out_of_fuel m = elim m [ ]

-- Behind one token that is no bracket.
pub Fine-behind :
    {A : Type 0} (o : List Bracket) (t : Token) (ts : List Token) (r : RcResult (A × ParserState))
    → is_bracket t.kind ≡ false
    → Fine (λ r. Nested o ts o r.1.tokens) r
    → Fine (λ r. Nested o (t ∷ ts) o r.1.tokens) r
Fine-behind o t ts (ok r) e n = Nested.other t e n
Fine-behind o t ts (err _) e n = tt
Fine-behind o t ts out_of_fuel e n = elim n [ ]
