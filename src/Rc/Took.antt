-- ===== src/Rc/Took.antt =====
-- What the loops of the lexer of crates/star9-rc/src/lib.rs take from their input, and that their steps
-- are enough.
use star.Base.{
  ℕ, zero, suc, ◌+◌, ◌<◌, ◌≡◌, refl, ap, sym, ◌∙◌, ◌&&◌, ◌==◌, [], ◌∷◌, ◌++◌, length, arith,
  Bool-cases, inl, inr,
}
use star.Rc.Chars.{Chars, RcResult, ok, at, has_char}
use star.Rc.Scan.{
  quote, backquote, Read, is_next, quote_loop, paren_loop, brace_loop, read_braced_substitution,
  ends_word, word_loop, word_or_error, read_word,
}
use star.Rc.Taken.{
  Fine, >>=-Fine, Took, Took-none, Took-more, Took-one, Took-weaken, shorter, Fine-one, Fine-after,
  Fine-weaken, Took-append,
}

pub quote_loop-Took : (i : ℕ) (out cs : Chars) → Took 0 i out cs (quote_loop i out cs)
unfolding quote_loop
quote_loop-Took i out [] = Took-none i out []
quote_loop-Took i out (c ∷ []) =
    Took-weaken 1 0 _ _ _ _ (omega arith)
      (Took-one 0 i out c [] _ (Took-none (i + 1) (out ++ c ∷ []) []))
quote_loop-Took i out (c ∷ d ∷ ds) = elim (Bool-cases (c == quote)) [
  | inl e ↦ elim (Bool-cases (d == quote)) [
    | inl f ↦
        rw (quote_loop, e, f)
          (Took-more 0 0 i (i + 2) out (c ∷ d ∷ []) ds _ (omega arith) (omega arith)
            (quote_loop-Took (i + 2) _ ds))
    | inr f ↦
        rw (quote_loop, e, f)
          (Took-weaken 1 0 _ _ _ _ (omega arith)
            (Took-one 0 i out c (d ∷ ds) _ (Took-none (i + 1) (out ++ c ∷ []) (d ∷ ds))))
  ]
  | inr e ↦
      rw (quote_loop, e)
        (Took-weaken 1 0 _ _ _ _ (omega arith)
          (Took-one 0 i out c (d ∷ ds) _ (quote_loop-Took (i + 1) _ (d ∷ ds))))
]

pub paren_loop-Took : (i : ℕ) (out cs : Chars) → Took 0 i out cs (paren_loop i out cs)
unfolding paren_loop
paren_loop-Took i out [] = Took-none i out []
paren_loop-Took i out (c ∷ cs) = elim (Bool-cases (c == b')')) [
  | inl e ↦
      rw (paren_loop, e)
        (Took-weaken 1 0 _ _ _ _ (omega arith)
          (Took-one 0 i out c cs _ (Took-none (i + 1) (out ++ c ∷ []) cs)))
  | inr e ↦
      rw (paren_loop, e)
        (Took-weaken 1 0 _ _ _ _ (omega arith)
          (Took-one 0 i out c cs _ (paren_loop-Took (i + 1) (out ++ c ∷ []) cs)))
]

closing_brace :
    (loop : ℕ → RcResult Read) (i : ℕ) (out : Chars) (c : ℕ) (cs : Chars)
    → ((d : ℕ) → Fine (Took 1 i out (c ∷ cs)) (loop d))
    → (d : ℕ)
    → Fine (Took 1 i out (c ∷ cs)) (elim d [
      | zero ↦ loop zero
      | suc zero ↦ ok (record { text = out ++ c ∷ []; next = i + 1; rest = cs })
      | suc (suc d') ↦ loop (suc d')
    ])
closing_brace loop i out c cs onward zero = onward zero
closing_brace loop i out c cs onward (suc zero) =
    Took-one 0 i out c cs _ (Took-none (i + 1) (out ++ c ∷ []) cs)
closing_brace loop i out c cs onward (suc (suc d)) = onward (suc d)

brace_loop-Took :
    (fuel start depth i : ℕ) (out cs : Chars)
    → length cs < fuel
    → Fine (Took 1 i out cs) (brace_loop fuel start depth i out cs)
unfolding brace_loop
brace_loop-Took zero start depth i out cs h = absurd (omega (arith, h))
brace_loop-Took (suc fuel) start depth i out [] h = tt
brace_loop-Took (suc fuel) start depth i out (c ∷ cs) h =
    let onward : (d : ℕ)
        → Fine (Took 1 i out (c ∷ cs)) (brace_loop fuel start d (i + 1) (out ++ c ∷ []) cs) =
      λ d. Fine-one 1 i out c cs _ (omega arith) (
        Fine-weaken _ _ _ _
          (brace_loop-Took fuel start d (i + 1) (out ++ c ∷ []) cs (omega (arith, h)))) in
    elim (Bool-cases (c == quote)) [
      | inl e ↦
          let quoted = quote_loop (i + 1) (out ++ c ∷ []) cs in
          let took = quote_loop-Took (i + 1) (out ++ c ∷ []) cs in
          let rest =
            brace_loop-Took fuel start depth quoted.next quoted.text quoted.rest
              (omega (arith, h, shorter 0 _ _ cs quoted took)) in
          rw (brace_loop, e)
            (Fine-one 1 i out c cs _ (omega arith) (Fine-after 0 1 _ _ cs quoted _ took rest))
      | inr e ↦ elim (Bool-cases (c == b'{')) [
        | inl f ↦ rw (brace_loop, e, f) (onward (suc depth))
        | inr f ↦ elim (Bool-cases (c == b'}')) [
          | inl g ↦
              rw (brace_loop, e, f, g)
                (closing_brace (λ d. brace_loop fuel start d (i + 1) (out ++ c ∷ []) cs) i out c cs
                  onward depth)
          | inr g ↦ rw (brace_loop, e, f, g) (onward depth)
        ]
      ]
    ]

pub read_braced_substitution-Took :
    (start : ℕ) (cs : Chars) → Fine (Took 1 start [] cs) (read_braced_substitution start cs)
unfolding read_braced_substitution
read_braced_substitution-Took start cs =
    brace_loop-Took (suc (length cs)) start 0 start [] cs (omega arith)

word_loop-Took :
    (fuel i : ℕ) (out cs : Chars)
    → length cs < fuel
    → Fine (Took 0 i out cs) (word_loop fuel i out cs)
unfolding word_loop
word_loop-Took zero i out cs h = absurd (omega (arith, h))
word_loop-Took (suc fuel) i out [] h = Took-none i out []
word_loop-Took (suc fuel) i out (c ∷ cs) h =
    let behind : (read : Read)
        → Took 0 (i + 1) (out ++ c ∷ []) cs read
        → Fine (Took 0 i out (c ∷ cs)) (word_loop fuel read.next read.text read.rest) =
      λ read took. Fine-one 0 i out c cs _ (omega arith) (
        Fine-after 0 0 _ _ cs read _ took (
          word_loop-Took fuel read.next read.text read.rest
            (omega (arith, h, shorter 0 _ _ cs read took)))) in
    elim (Bool-cases (c == b'(' && has_char b'$' out)) [
      | inl e ↦
          rw (word_loop, e)
            (behind (paren_loop (i + 1) (out ++ c ∷ []) cs) (paren_loop-Took (i + 1) _ cs))
      | inr e ↦ elim (Bool-cases (ends_word c)) [
        | inl f ↦ rw (word_loop, e, f) (Took-none i out (c ∷ cs))
        | inr f ↦ elim (Bool-cases (c == quote)) [
          | inl g ↦
              rw (word_loop, e, f, g)
                (behind (quote_loop (i + 1) (out ++ c ∷ []) cs) (quote_loop-Took (i + 1) _ cs))
          | inr g ↦ elim (Bool-cases (c == backquote && is_next b'{' cs)) [
            | inl k ↦
                rw (word_loop, e, f, g, k)
                  (>>=-Fine (Took 1 i [] (c ∷ cs)) (Took 0 i out (c ∷ cs))
                    (read_braced_substitution i (c ∷ cs))
                    (λ sub. word_loop fuel sub.next (out ++ sub.text) sub.rest)
                    (read_braced_substitution-Took i (c ∷ cs))
                    (λ sub t.
                      Fine-after 0 0 i out (c ∷ cs) (record sub { text = out ++ sub.text }) _
                        (Took-weaken 1 0 _ _ _ _ (omega arith) (Took-append 1 i out (c ∷ cs) sub t))
                        (word_loop-Took fuel sub.next (out ++ sub.text) sub.rest
                          (omega (arith, h, shorter 1 _ _ (c ∷ cs) sub t)))))
            | inr k ↦
                rw (word_loop, e, f, g, k)
                  (behind (record { text = out ++ c ∷ []; next = i + 1; rest = cs })
                    (Took-none (i + 1) _ cs))
          ]
        ]
      ]
    ]

word_or_error-Took :
    (start : ℕ) (cs : Chars) (read : Read)
    → Took 0 start [] cs read
    → Fine (Took 1 start [] cs) (word_or_error start read)
unfolding word_or_error
word_or_error-Took start cs read t = nonempty read.text refl
  where
    nonempty :
        (text : Chars)
        → read.text ≡ text
        → Fine
            (Took 1 start [] cs)
            (elim text [ [] ↦ at "expected word" start read.next | _ ∷ _ ↦ ok read ])
    nonempty [] e = tt
    nonempty (c ∷ text) e = record {
      taken = t.taken;
      text = t.text;
      split = t.split;
      position = t.position;
      enough = omega (arith, ap length (sym t.text ∙ e));
    }

-- `read_word` ends, and a word that it returns is what it took from its input.
pub read_word-Took : (start : ℕ) (cs : Chars) → Fine (Took 1 start [] cs) (read_word start cs)
unfolding read_word
read_word-Took start cs =
    >>=-Fine (Took 0 start [] cs) (Took 1 start [] cs) (word_loop (suc (length cs)) start [] cs)
      (word_or_error start) (word_loop-Took (suc (length cs)) start [] cs (omega arith))
      (word_or_error-Took start cs)
