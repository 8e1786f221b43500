-- ===== src/Rc/Ends.antt =====
-- The expansion of a word of crates/star9-rc/src/lib.rs ends.
use star.Base.{
  ℕ, zero, suc, ◌-◌, ◌≤◌, ◌<◌, ◌≢◌, refl, ap, ◌||◌, ◌&&◌, ◌==◌, List, [], ◌∷◌, ◌++◌, length,
  length-append, Option-cases, arith, Bool-cases, inl, inr,
}
use star.Rc.Chars.{Chars, RcResult, ok, err, out_of_fuel, is_digit, is_alphabetic, split_once}
use star.Rc.Scan.{quote, backquote, is_next, read_braced_substitution}
use star.Rc.Taken.{Fine, Took, shorter}
use star.Rc.Took.{read_braced_substitution-Took}
use star.Rc.Glob.Matches.{split_once-some}
use star.Rc.Values.{Part, literal_loop, concat_values, split_caret_parts}
use star.Rc.Vars.{
  Vars, Flag, read_flag, name_loop, read_name, read_subscript, flagged, expand_name, lookup_var,
  read_variable_expansion,
}
use star.Rc.Words.{after_part, part_loop, expand_part, expand_parts, expand_raw_word}

literal_loop-less :
    (out cs : Chars) → Fine (λ (part : Part). length part.rest ≤ length cs) (literal_loop out cs)
unfolding literal_loop
literal_loop-less out [] = tt
literal_loop-less out (c ∷ []) = elim (Bool-cases (c == quote)) [
  | inl e ↦ rw (literal_loop, e) (omega arith)
  | inr e ↦ rw (literal_loop, e) tt
]
literal_loop-less out (c ∷ d ∷ ds) = elim (Bool-cases (c == quote)) [
  | inl e ↦ elim (Bool-cases (d == quote)) [
    | inl f ↦
        rw (literal_loop, e, f)
          (longer (literal_loop (out ++ quote ∷ []) ds) (literal_loop-less (out ++ quote ∷ []) ds))
    | inr f ↦ rw (literal_loop, e, f) (omega arith)
  ]
  | inr e ↦
      rw (literal_loop, e)
        (one_longer (literal_loop (out ++ c ∷ []) (d ∷ ds))
          (literal_loop-less (out ++ c ∷ []) (d ∷ ds)))
]
  where
    longer :
        (r : RcResult Part)
        → Fine (λ (part : Part). length part.rest ≤ length ds) r
        → Fine (λ (part : Part). length part.rest ≤ length (c ∷ d ∷ ds)) r
    longer (ok part) h = omega (arith, h)
    longer (err e) h = tt
    longer out_of_fuel h = elim h [ ]

    one_longer :
        (r : RcResult Part)
        → Fine (λ (part : Part). length part.rest ≤ length (d ∷ ds)) r
        → Fine (λ (part : Part). length part.rest ≤ length (c ∷ d ∷ ds)) r
    one_longer (ok part) h = omega (arith, h)
    one_longer (err e) h = tt
    one_longer out_of_fuel h = elim h [ ]

read_flag-less : (cs : Chars) → length (read_flag cs).1 ≤ length cs
unfolding read_flag
read_flag-less [] = omega arith
read_flag-less (c ∷ cs) = ground arith

name_loop-less : (out cs : Chars) → length (name_loop out cs).1 ≤ length cs
unfolding name_loop
name_loop-less out [] = omega arith
name_loop-less out (c ∷ cs) = elim (Bool-cases (is_alphabetic c || is_digit c || c == b'_')) [
  | inl e ↦ rw (name_loop, e) (omega (arith, name_loop-less (out ++ c ∷ []) cs))
  | inr e ↦ rw (name_loop, e) (omega arith)
]

read_name-less : (cs : Chars) → length (read_name cs).1 ≤ length cs
unfolding read_name
read_name-less [] = omega arith
read_name-less (c ∷ cs) = elim (Bool-cases (c == b'*')) [
  | inl e ↦ rw e (omega arith)
  | inr e ↦ rw e (name_loop-less [] (c ∷ cs))
]

-- What is left behind some values.
abbrev Left : ℕ → List Chars × Chars → Type 0
Left n r = length r.1 ≤ n

read_subscript-less :
    (values : List Chars) (cs : Chars) → Fine (Left (length cs)) (read_subscript values cs)
unfolding read_subscript
read_subscript-less values [] = omega arith
read_subscript-less values (c ∷ cs) = elim (Bool-cases (c == b'(')) [
  | inl e ↦ elim (Option-cases (split_once b')' cs)) [
    | inl n ↦ rw (read_subscript, e, n) tt
    | inr ((subs, rest), q) ↦
        let (split, _) = split_once-some b')' cs subs rest q in
        rw (read_subscript, e, q) (omega (arith, ap length split, length-append subs (b')' ∷ rest)))
  ]
  | inr e ↦ rw (read_subscript, e) (omega arith)
]

flagged-less :
    (n : ℕ) (flag : Flag) (r : RcResult (List Chars × Chars))
    → Fine (Left n) r
    → Fine (Left n) (flagged flag r)
unfolding flagged
flagged-less n flag (ok (values, rest)) h = h
flagged-less n flag (err e) h = tt
flagged-less n flag out_of_fuel h = elim h [ ]

weaken : (m n : ℕ) (r : RcResult (List Chars × Chars)) → m ≤ n → Fine (Left m) r → Fine (Left n) r
weaken m n (ok r) h l = omega (arith, h, l)
weaken m n (err e) h l = tt
weaken m n out_of_fuel h l = elim l [ ]

expand_name-less :
    (s : Vars) (flag : Flag) (start name rest : Chars)
    → length rest ≤ length start
    → Fine (Left (length start)) (expand_name s flag start name rest)
unfolding expand_name
expand_name-less s flag start [] rest h = omega arith
expand_name-less s flag start (c ∷ cs) rest h =
    weaken (length rest) (length start) _ h
      (flagged-less (length rest) flag _ (read_subscript-less (lookup_var (c ∷ cs) s) rest))

read_variable_expansion-less :
    (s : Vars) (cs : Chars) → Fine (Left (length cs)) (read_variable_expansion s cs)
unfolding read_variable_expansion
read_variable_expansion-less s cs =
    expand_name-less s (read_flag cs).0 cs (read_name (read_flag cs).1).0
      (read_name (read_flag cs).1).1
      (omega (arith, read_flag-less cs, read_name-less (read_flag cs).1))

-- A result that is not that of a loop which was given up.
abbrev pub Ends : {S : Type 0} → RcResult (List Chars) × S → Type 0
Ends (r, s) = r ≢ out_of_fuel

module _ {S : Type 0} (vars : S → Vars) (eval_source : Chars → S → Chars × S) where
  after_part-Ends :
      {A : Type 0} (P : A → Type 0) (r : RcResult A) (s : S) (next : A → RcResult (List Chars) × S)
      → Fine P r
      → ((a : A) → P a → Ends (next a))
      → Ends (after_part vars eval_source r s next)
  unfolding after_part
  after_part-Ends P (ok a) s next p h = h a p
  after_part-Ends P (err e) s next p h = λ q. cc (q)
  after_part-Ends P out_of_fuel s next p h = elim p [ ]

  part_loop-Ends :
      (total fuel : ℕ) (acc : List Chars) (cs : Chars) (s : S)
      → length cs < fuel
      → Ends (part_loop vars eval_source total fuel acc cs s)
  unfolding part_loop
  part_loop-Ends total zero acc cs s h = absurd (omega (arith, h))
  part_loop-Ends total (suc fuel) acc [] s h = λ q. cc (q)
  part_loop-Ends total (suc fuel) acc (c ∷ cs) s h = elim (Bool-cases (c == quote)) [
    | inl e ↦
        rw (part_loop, e)
          (after_part-Ends (λ (part : Part). length part.rest ≤ length cs) (literal_loop [] cs) s _
            (literal_loop-less [] cs)
            (λ part l. part_loop-Ends total fuel _ part.rest s (omega (arith, h, l))))
    | inr e ↦ elim (Bool-cases (c == b'$')) [
      | inl f ↦
          rw (part_loop, e, f)
            (after_part-Ends (Left (length cs)) (read_variable_expansion (vars s) cs) s _
              (read_variable_expansion-less (vars s) cs)
              (λ found l. part_loop-Ends total fuel _ found.1 s (omega (arith, h, l))))
      | inr f ↦ elim (Bool-cases (c == backquote && is_next b'{' cs)) [
        | inl g ↦
            rw (part_loop, e, f, g)
              (after_part-Ends (Took 1 (total - length (c ∷ cs)) [] (c ∷ cs))
                (read_braced_substitution (total - length (c ∷ cs)) (c ∷ cs)) s _
                (read_braced_substitution-Took (total - length (c ∷ cs)) (c ∷ cs))
                (λ sub t.
                  part_loop-Ends total fuel _ sub.rest _
                    (omega (arith, h, shorter 1 _ [] (c ∷ cs) sub t))))
        | inr g ↦ rw (part_loop, e, f, g) (part_loop-Ends total fuel _ cs s (omega (arith, h)))
      ]
    ]
  ]

  done : (r : RcResult (List Chars)) → r ≢ out_of_fuel → Fine (λ (values : List Chars). Unit {0}) r
  done (ok values) n = tt
  done (err e) n = tt
  done out_of_fuel n = absurd (n refl)

  expand_parts-Ends :
      (acc : List Chars) (parts : List Chars) (s : S)
      → Ends (expand_parts vars eval_source acc parts s)
  unfolding expand_parts expand_part
  expand_parts-Ends acc [] s = λ q. cc (q)
  expand_parts-Ends acc (part ∷ parts) s =
      let (r, s') = expand_part vars eval_source part s in
      after_part-Ends (λ values. Unit {0}) r s' _
        (done r (part_loop-Ends (length part) (suc (length part)) ([] ∷ []) part s (omega arith)))
        (λ values u. expand_parts-Ends (concat_values acc values) parts s')

  -- The expansion of a word ends, if the commands in it do: it comes to values or to an error.
  pub expand_raw_word-ends :
      (raw : Chars) (s : S) → (expand_raw_word vars eval_source raw s).0 ≢ out_of_fuel
  unfolding expand_raw_word
  expand_raw_word-ends raw s = expand_parts-Ends ([] ∷ []) (split_caret_parts raw) s
