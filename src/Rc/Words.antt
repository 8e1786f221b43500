-- ===== src/Rc/Words.antt =====
-- How a session of crates/star9-rc/src/lib.rs expands words. The state of the session and its host is
-- `S`; what runs a command, and what lists a directory, are parameters.
use star.Base.{
  ℕ, zero, suc, ◌-◌, true, false, ◌&&◌, ◌==◌, List, [], ◌∷◌, ◌++◌, length, take, drop, Option, none,
  some, codes, decimal,
}
use star.Rc.Chars.{Chars, RcError, RcResult, ok, err, out_of_fuel}
use star.Rc.Scan.{quote, backquote, is_next, read_braced_substitution}
use star.Rc.Globbing.{expand_glob_or_literal}
use star.Rc.Values.{concat_values, split_caret_parts, literal_loop, split_ifs}
use star.Rc.Vars.{Vars, lookup_var, read_variable_expansion}

-- The `Display` of `RcError`.
unfoldable pub show_error : RcError → Chars
show_error e = elim e.span [
  | none ↦ e.message
  | some span ↦ e.message ++ codes " at " ++ decimal span.start ++ codes ".." ++ decimal span.end
]

-- `raw[2..raw.len() - 1]`
unfoldable pub inner_source : Chars → Chars
inner_source raw = drop 2 (take (length raw - 1) raw)

module _ {S : Type 0} (vars : S → Vars) (eval_source : Chars → S → Chars × S) where
  -- The results of a step, with which the loop goes on.
  unfoldable pub after_part :
      {A : Type 0} → RcResult A → S → (A → RcResult (List Chars) × S) → RcResult (List Chars) × S
  after_part (ok a) s next = next a
  after_part (err e) s next = (err e, s)
  after_part out_of_fuel s next = (out_of_fuel, s)

  -- The loop of `expand_part`, in a text of so many characters.
  unfoldable pub part_loop : ℕ → ℕ → List Chars → Chars → S → RcResult (List Chars) × S
  unfolding after_part literal_loop read_variable_expansion read_braced_substitution is_next
      concat_values inner_source split_ifs lookup_var
  part_loop total zero acc cs s = (out_of_fuel, s)
  part_loop total (suc fuel) acc [] s = (ok acc, s)
  part_loop total (suc fuel) acc (c ∷ cs) s = elim (c == quote) [
    | true ↦
        after_part (literal_loop [] cs) s
          (λ part. part_loop total fuel (concat_values acc (part.text ∷ [])) part.rest s)
    | false ↦ elim (c == b'$') [
      | true ↦
          after_part (read_variable_expansion (vars s) cs) s
            (λ found. part_loop total fuel (concat_values acc found.0) found.1 s)
      | false ↦ elim (c == backquote && is_next b'{' cs) [
        | true ↦ after_part (read_braced_substitution (total - length (c ∷ cs)) (c ∷ cs)) s (λ sub.
            let (out, s') = eval_source (inner_source sub.text) s in
            part_loop total fuel
              (concat_values acc (split_ifs out (lookup_var (codes "ifs") (vars s')))) sub.rest s')
        | false ↦ part_loop total fuel (concat_values acc ((c ∷ []) ∷ [])) cs s
      ]
    ]
  ]

  unfoldable pub expand_part : Chars → S → RcResult (List Chars) × S
  unfolding part_loop
  expand_part raw s = part_loop (length raw) (suc (length raw)) ([] ∷ []) raw s

  -- The loop of `expand_raw_word`.
  unfoldable pub expand_parts : List Chars → List Chars → S → RcResult (List Chars) × S
  unfolding expand_part after_part concat_values
  expand_parts acc [] s = (ok acc, s)
  expand_parts acc (part ∷ parts) s =
      let (r, s') = expand_part part s in
      after_part r s' (λ values. expand_parts (concat_values acc values) parts s')

  unfoldable pub expand_raw_word : Chars → S → RcResult (List Chars) × S
  unfolding expand_parts split_caret_parts
  expand_raw_word raw s = expand_parts ([] ∷ []) (split_caret_parts raw) s

  unfoldable pub or_message : RcResult (List Chars) → List Chars
  unfolding show_error
  or_message (ok values) = values
  or_message (err e) = (codes "rc-expansion-error:" ++ show_error e) ∷ []
  or_message out_of_fuel = []

  unfoldable pub expand_word : Chars → S → List Chars × S
  unfolding expand_raw_word or_message
  expand_word raw s = let (r, s') = expand_raw_word raw s in (or_message r, s')

module _ {S : Type 0} (vars : S → Vars) (eval_source : Chars → S → Chars × S)
    (read_dir : Chars → S → Option (List Chars) × S) (current_dir : S → Chars) where
  unfoldable pub expand_globs : List Chars → S → List Chars × S
  unfolding expand_glob_or_literal
  expand_globs [] s = ([], s)
  expand_globs (value ∷ values) s =
      let (found, s1) = expand_glob_or_literal read_dir current_dir value s in
      let (more, s2) = expand_globs values s1 in (found ++ more, s2)

  unfoldable pub expand_words : List Chars → S → List Chars × S
  unfolding expand_globs expand_word
  expand_words [] s = ([], s)
  expand_words (word ∷ words) s =
      let (values, s1) = expand_word vars eval_source word s in
      let (found, s2) = expand_globs values s1 in
      let (more, s3) = expand_words words s2 in (found ++ more, s3)
