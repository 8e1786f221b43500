-- ===== src/Rc/Passed.antt =====
-- How far the operators of the lexer of crates/star9-rc/src/lib.rs move on.
use star.Base.{
  ℕ, suc, ◌+◌, ◌≤◌, ◌≡◌, refl, ap, sym, ◌∙◌, false, ◌==◌, [], ◌∷◌, ◌++◌, length, append_assoc,
  length-append, arith, Bool-cases, some, inl, inr,
}
use star.Rc.Chars.{Chars, RcResult, ok, err, out_of_fuel, ◌>>=◌}
use star.Rc.Operators.{
  RedirectMode, Scanned, scanned, bracket_loop, pipe_spec_of, parse_pipe_spec, redirect_of,
  redirect_fd, redirect_mode, parse_redirect,
}
use star.Rc.Lex.{skip_comment}
use star.Rc.Taken.{Fine, >>=-Fine}

-- At least `n` characters were passed.
pub record Moved (n i : ℕ) (cs : Chars) (next : ℕ) (rest : Chars) : Type 0 where
  pub taken : Chars
  pub split : cs ≡ taken ++ rest
  pub position : next ≡ i + length taken
  pub enough : n ≤ length taken

pub Moved-none : (i : ℕ) (cs : Chars) → Moved 0 i cs i cs
Moved-none i cs = record { taken = []; split = refl; position = omega arith; enough = omega arith }

Moved-more :
    (n m i j : ℕ) (p cs : Chars) (next : ℕ) (rest : Chars)
    → j ≡ i + length p
    → m ≤ length p + n
    → Moved n j cs next rest
    → Moved m i (p ++ cs) next rest
Moved-more n m i j p cs next rest e h t = record {
  taken = p ++ t.taken;
  split = ap (λ l. p ++ l) t.split ∙ sym (append_assoc p t.taken rest);
  position = omega (arith, t.position, e, length-append p t.taken);
  enough = omega (arith, t.enough, h, length-append p t.taken);
}

pub Moved-one :
    (n m i : ℕ) (c : ℕ) (cs : Chars) (next : ℕ) (rest : Chars)
    → m ≤ suc n
    → Moved n (i + 1) cs next rest
    → Moved m i (c ∷ cs) next rest
Moved-one n m i c cs next rest h t =
    Moved-more n m i (i + 1) (c ∷ []) cs next rest (omega arith) (omega (arith, h)) t

-- What is scanned moves on.
abbrev pub Passed : {A : Type 0} → ℕ → ℕ → Chars → Scanned A → Type 0
Passed n i cs found = Moved n i cs found.next found.rest

bracket_loop-Passed :
    (start i : ℕ) (text cs : Chars) → Fine (Passed 0 i cs) (bracket_loop start i text cs)
unfolding bracket_loop
bracket_loop-Passed start i text [] = tt
bracket_loop-Passed start i text (c ∷ cs) = elim (Bool-cases (c == b']')) [
  | inl e ↦ rw (bracket_loop, e) (Moved-one 0 0 i c cs _ _ (omega arith) (Moved-none (i + 1) cs))
  | inr e ↦
      rw (bracket_loop, e)
        (lift (bracket_loop start (i + 1) (text ++ c ∷ []) cs)
          (bracket_loop-Passed start (i + 1) (text ++ c ∷ []) cs))
]
  where
    lift :
        (r : RcResult (Scanned Chars)) → Fine (Passed 0 (i + 1) cs) r → Fine (Passed 0 i (c ∷ cs)) r
    lift (ok found) t = Moved-one 0 0 i c cs _ _ (omega arith) t
    lift (err e) t = tt
    lift out_of_fuel t = elim t [ ]

-- A text in brackets, of which something is made.
bracketed :
    {A : Type 0} (f : Chars → A) (start i : ℕ) (c : ℕ) (cs : Chars)
    → Fine (Passed 0 i (c ∷ cs)) (
        bracket_loop start (i + 1) [] cs >>= λ found.
        ok (scanned (f found.value) found.next found.rest))
bracketed f start i c cs =
    >>=-Fine (Passed 0 (i + 1) cs) (Passed 0 i (c ∷ cs)) (bracket_loop start (i + 1) [] cs)
      (λ found. ok (scanned (f found.value) found.next found.rest))
      (bracket_loop-Passed start (i + 1) [] cs)
      (λ found t. Moved-one 0 0 i c cs _ _ (omega arith) t)

pub parse_pipe_spec-Passed :
    (start : ℕ) (cs : Chars) → Fine (Passed 0 start cs) (parse_pipe_spec start cs)
unfolding parse_pipe_spec
parse_pipe_spec-Passed start [] = Moved-none start []
parse_pipe_spec-Passed start (c ∷ cs) = elim (Bool-cases (c == b'[')) [
  | inl e ↦ rw (parse_pipe_spec, e) (bracketed (λ text. some (pipe_spec_of text)) start start c cs)
  | inr e ↦ rw (parse_pipe_spec, e) (Moved-none start (c ∷ cs))
]

redirect_fd-Passed :
    (fd : ℕ) (mode : RedirectMode) (i : ℕ) (cs : Chars)
    → Fine (Passed 0 i cs) (redirect_fd fd mode i cs)
unfolding redirect_fd
redirect_fd-Passed fd mode i [] = Moved-none i []
redirect_fd-Passed fd mode i (c ∷ cs) = elim (Bool-cases (c == b'[')) [
  | inl e ↦ rw (redirect_fd, e) (bracketed (redirect_of fd mode) i i c cs)
  | inr e ↦ rw (redirect_fd, e) (Moved-none i (c ∷ cs))
]

-- What moves on from the next character moves on from this one.
Fine-behind :
    {A : Type 0} (n m i : ℕ) (c : ℕ) (cs : Chars) (r : RcResult (Scanned A))
    → m ≤ suc n
    → Fine (Passed n (i + 1) cs) r
    → Fine (Passed m i (c ∷ cs)) r
Fine-behind n m i c cs (ok found) h t = Moved-one n m i c cs _ _ h t
Fine-behind n m i c cs (err e) h t = tt
Fine-behind n m i c cs out_of_fuel h t = elim t [ ]

redirect_mode-Passed :
    (op fd : ℕ) (one two : RedirectMode) (i : ℕ) (cs : Chars)
    → Fine (Passed 0 i cs) (redirect_mode op fd one two i cs)
unfolding redirect_mode
redirect_mode-Passed op fd one two i [] = redirect_fd-Passed fd one i []
redirect_mode-Passed op fd one two i (c ∷ cs) = elim (Bool-cases (c == op)) [
  | inl e ↦
      rw (redirect_mode, e)
        (Fine-behind 0 0 i c cs _ (omega arith) (redirect_fd-Passed fd two (i + 1) cs))
  | inr e ↦ rw (redirect_mode, e) (redirect_fd-Passed fd one i (c ∷ cs))
]

pub parse_redirect-Passed :
    (op i : ℕ) (cs : Chars) → Fine (Passed 1 i (op ∷ cs)) (parse_redirect op i cs)
unfolding parse_redirect
parse_redirect-Passed op i cs = elim (Bool-cases (op == b'<')) [
  | inl e ↦
      rw e (Fine-behind 0 1 i op cs _ (omega arith) (redirect_mode-Passed op 0 _ _ (i + 1) cs))
  | inr e ↦
      rw e (Fine-behind 0 1 i op cs _ (omega arith) (redirect_mode-Passed op 1 _ _ (i + 1) cs))
]

pub skip_comment-Passed : (i : ℕ) (cs : Chars) → Passed 0 i cs (skip_comment i cs)
unfolding skip_comment
skip_comment-Passed i [] = Moved-none i []
skip_comment-Passed i (c ∷ cs) = elim (Bool-cases (c == b'\n')) [
  | inl e ↦ rw (skip_comment, e) (Moved-none i (c ∷ cs))
  | inr e ↦
      rw (skip_comment, e) (Moved-one 0 0 i c cs _ _ (omega arith) (skip_comment-Passed (i + 1) cs))
]

-- A comment has at least its first character.
pub skip_comment-first :
    (i c : ℕ) (cs : Chars) → (c == b'\n') ≡ false → Passed 1 i (c ∷ cs) (skip_comment i (c ∷ cs))
unfolding skip_comment
skip_comment-first i c cs e =
    rw (skip_comment, e) (Moved-one 0 1 i c cs _ _ (omega arith) (skip_comment-Passed (i + 1) cs))
