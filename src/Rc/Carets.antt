-- ===== src/Rc/Carets.antt =====
-- The parts of a word of crates/star9-rc/src/lib.rs between its carets.
use star.Base.{
  ℕ, zero, suc, ◌≤◌, ◌<◌, ◌≡◌, refl, ap, sym, ◌∙◌, ◌==◌, ==_iff, List, [], ◌∷◌, ◌++◌, length,
  append_assoc, append-nil, arith, Bool-cases, inl, inr,
}
use star.Rc.Chars.{Chars}
use star.Rc.Scan.{quote}
use star.Rc.Values.{Part, quoted_part, caret_loop, split_caret_parts, join_with}

-- What a loop took is behind its text, and no longer in its input.
record Took (out cs : Chars) (part : Part) : Type 0 where
  whole : part.text ++ part.rest ≡ out ++ cs
  less : length part.rest ≤ length cs

quoted_part-Took : (out cs : Chars) → Took out cs (quoted_part out cs)
unfolding quoted_part
quoted_part-Took out [] = record { whole = refl; less = omega arith }
quoted_part-Took out (c ∷ []) = record { whole = append-nil (out ++ c ∷ []); less = omega arith }
quoted_part-Took out (c ∷ d ∷ ds) = elim (Bool-cases (c == quote)) [
  | inl e ↦ elim (Bool-cases (d == quote)) [
    | inl f ↦
        let t = quoted_part-Took (out ++ c ∷ d ∷ []) ds in
        rw (quoted_part, e, f)
          (record {
            whole = t.whole ∙ append_assoc out (c ∷ d ∷ []) ds;
            less = omega (arith, t.less);
          })
    | inr f ↦
        rw (quoted_part, e, f)
          (record { whole = append_assoc out (c ∷ []) (d ∷ ds); less = omega arith })
  ]
  | inr e ↦
      let t = quoted_part-Took (out ++ c ∷ []) (d ∷ ds) in
      rw (quoted_part, e)
        (record {
          whole = t.whole ∙ append_assoc out (c ∷ []) (d ∷ ds);
          less = omega (arith, t.less);
        })
]

abbrev pub caret : Chars
caret = b'^' ∷ []

-- There is one part at least.
caret_loop-cons :
    (fuel : ℕ) (current cs : Chars)
    → (first : Chars) × (more : List Chars) × (caret_loop fuel current cs ≡ first ∷ more)
unfolding caret_loop
caret_loop-cons zero current cs = (current, [], refl)
caret_loop-cons (suc fuel) current [] = (current, [], refl)
caret_loop-cons (suc fuel) current (c ∷ cs) = elim (Bool-cases (c == quote)) [
  | inl e ↦
      let part = quoted_part (current ++ c ∷ []) cs in
      let (first, more, q) = caret_loop-cons fuel part.text part.rest in
      (first, more, rw (caret_loop, e) q)
  | inr e ↦ elim (Bool-cases (c == b'^')) [
    | inl f ↦ (current, caret_loop fuel [] cs, rw (caret_loop, e, f) refl)
    | inr f ↦
        let (first, more, q) = caret_loop-cons fuel (current ++ c ∷ []) cs in
        (first, more, rw (caret_loop, e, f) q)
  ]
]

-- A first part, and those of the rest.
join-first :
    (fuel : ℕ) (a cs : Chars)
    → join_with caret (caret_loop fuel [] cs) ≡ cs
    → join_with caret (a ∷ caret_loop fuel [] cs) ≡ a ++ b'^' ∷ cs
unfolding join_with
join-first fuel a cs h =
    let (first, more, q) = caret_loop-cons fuel [] cs in
    ap (λ l. join_with caret (a ∷ l)) q
    ∙ append_assoc a caret (join_with caret (first ∷ more))
    ∙ ap (λ t. a ++ b'^' ∷ t) (sym (ap (join_with caret) q) ∙ h)

join-caret_loop :
    (fuel : ℕ) (current cs : Chars)
    → length cs < fuel
    → join_with caret (caret_loop fuel current cs) ≡ current ++ cs
unfolding caret_loop join_with
join-caret_loop zero current cs h = absurd (omega (arith, h))
join-caret_loop (suc fuel) current [] h = sym (append-nil current)
join-caret_loop (suc fuel) current (c ∷ cs) h = elim (Bool-cases (c == quote)) [
  | inl e ↦
      let part = quoted_part (current ++ c ∷ []) cs in
      let t = quoted_part-Took (current ++ c ∷ []) cs in
      rw (caret_loop, e)
        (join-caret_loop fuel part.text part.rest (omega (arith, h, t.less))
          ∙ t.whole
          ∙ append_assoc current (c ∷ []) cs)
  | inr e ↦ elim (Bool-cases (c == b'^')) [
    | inl f ↦
        rw (caret_loop, e, f)
          (join-first fuel current cs (join-caret_loop fuel [] cs (omega (arith, h)))
            ∙ ap (λ d. current ++ d ∷ cs) (sym ((==_iff c b'^').0 f)))
    | inr f ↦
        rw (caret_loop, e, f)
          (join-caret_loop fuel (current ++ c ∷ []) cs (omega (arith, h))
            ∙ append_assoc current (c ∷ []) cs)
  ]
]

-- The parts of a word, joined by carets again, are the word: no character is lost.
pub join-split_caret_parts : (raw : Chars) → join_with caret (split_caret_parts raw) ≡ raw
unfolding split_caret_parts
join-split_caret_parts raw = join-caret_loop (suc (length raw)) [] raw (omega arith)
