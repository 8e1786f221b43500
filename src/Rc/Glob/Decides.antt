-- ===== src/Rc/Glob/Decides.antt =====
-- The search of crates/star9-rc/src/lib.rs for a match finds one exactly when there is one.
use star.Base.{
  ℕ, zero, suc, ◌+◌, ◌<◌, ◌≡◌, ◌↔◌, refl, ap, sym, subst, ◌∙◌, Bool, true, ◌==◌, ==_iff, ==_refl,
  [], ◌∷◌, ◌++◌, length, length-append, arith, Bool-cases, Option-cases, inl, inr,
}
use star.Rc.Chars.{Chars, split_once}
use star.Rc.Glob.{char_class_match, on_first, pattern_match_inner, pattern_match}
use star.Rc.Glob.Matches.{
  Matches, split_once-none, split_once-some, split_once-first, split_once-absent,
}

-- A pattern of one character that matches has one to match.
on_first-true :
    (test : ℕ → Bool) (next : Chars → Bool) (v : Chars)
    → on_first test next v ≡ true
    → (c : ℕ) × (s : Chars) × (v ≡ c ∷ s) × (test c ≡ true) × (next s ≡ true)
unfolding on_first
on_first-true test next [] h = absurd (cc (h))
on_first-true test next (c ∷ s) h = elim (Bool-cases (test c)) [
  | inl e ↦ (c, s, refl, e, rw (on_first, e) at h)
  | inr e ↦ absurd (cc (rw (on_first, e) at h))
]

on_first-cons :
    (test : ℕ → Bool) (next : Chars → Bool) (c : ℕ) (s : Chars)
    → test c ≡ true
    → next s ≡ true
    → on_first test next (c ∷ s) ≡ true
unfolding on_first
on_first-cons test next c s e h = rw (on_first, e) h

head : Chars → ℕ
head [] = 0
head (c ∷ cs) = c

-- A star takes one character more.
add_char : {q v : Chars} (d : ℕ) → Matches q v → head q ≡ b'*' → Matches q (d ∷ v)
unfolding head
add_char d Matches.empty e = absurd (omega (arith, e))
add_char d (Matches.many s m) e = Matches.many (d ∷ s) m
add_char d (Matches.any c m) e = absurd (omega (arith, e))
add_char d (Matches.class set c n k m) e = absurd (omega (arith, e))
add_char d (Matches.bracket n m) e = absurd (omega (arith, e))
add_char d (Matches.literal c n k l m) e = absurd (ground (arith, e, n))

module _ (fuel : ℕ)
    (sound : (p v : Chars) → pattern_match_inner fuel p v ≡ true → Matches p v) where
  starred :
      (c : ℕ) (p v : Chars)
      → (c == b'*') ≡ true
      → pattern_match_inner (suc fuel) (c ∷ p) v ≡ true
      → Matches (c ∷ p) v
  unfolding pattern_match_inner head
  starred c p v e h = elim (Bool-cases (pattern_match_inner fuel p v)) [
    | inl k ↦ rw ((==_iff c b'*').0 e) (Matches.many [] (sound p v k))
    | inr k ↦
        let (d, s, split, _, found) =
          on_first-true (λ d. true) (pattern_match_inner fuel (c ∷ p)) v
            (rw (pattern_match_inner, e, k) at h) in
        subst (Matches (c ∷ p)) (sym split)
          (add_char d (sound (c ∷ p) s found) ((==_iff c b'*').0 e))
  ]

  exactly :
      (c : ℕ) (p v : Chars)
      → ((s : Chars) → Matches p s → Matches (c ∷ p) (c ∷ s))
      → on_first (λ d. c == d) (pattern_match_inner fuel p) v ≡ true
      → Matches (c ∷ p) v
  exactly c p v made h =
      let (d, s, split, same, found) =
        on_first-true (λ d. c == d) (pattern_match_inner fuel p) v h in
      let it : c ∷ s ≡ v = ap (λ x. x ∷ s) ((==_iff c d).0 same) ∙ sym split in
      subst (Matches (c ∷ p)) it (made s (sound p s found))

  bracketed :
      (p v : Chars) → pattern_match_inner (suc fuel) (b'[' ∷ p) v ≡ true → Matches (b'[' ∷ p) v
  unfolding pattern_match_inner
  bracketed p v h = elim (Option-cases (split_once b']' p)) [
    | inl n ↦
        exactly b'[' p v (λ s m. Matches.bracket (split_once-none b']' p n) m)
          (rw (pattern_match_inner, n) at h)
    | inr ((set, rest), q) ↦
        let (d, s, split, in_set, found) =
          on_first-true (char_class_match set) (pattern_match_inner fuel rest) v
            (rw (pattern_match_inner, q) at h) in
        let (parts, free) = split_once-some b']' p set rest q in
        subst (Matches (b'[' ∷ p)) (sym split) (
          subst (λ x. Matches (b'[' ∷ x) (d ∷ s)) (sym parts)
            (Matches.class set d free in_set (sound rest s found)))
  ]

  onward :
      (c : ℕ) (p v : Chars) → pattern_match_inner (suc fuel) (c ∷ p) v ≡ true → Matches (c ∷ p) v
  unfolding pattern_match_inner
  onward c p v h = elim (Bool-cases (c == b'*')) [
    | inl e ↦ starred c p v e h
    | inr e ↦ elim (Bool-cases (c == b'?')) [
      | inl f ↦
          let (d, s, split, _, found) =
            on_first-true (λ d. true) (pattern_match_inner fuel p) v
              (rw (pattern_match_inner, e, f) at h) in
          rw ((==_iff c b'?').0 f)
            (subst (Matches (b'?' ∷ p)) (sym split) (Matches.any d (sound p s found)))
      | inr f ↦ elim (Bool-cases (c == b'[')) [
        | inl g ↦
            let it = (==_iff c b'[').0 g in
            subst (λ x. Matches (x ∷ p) v) (sym it)
              (bracketed p v (subst (λ x. pattern_match_inner (suc fuel) (x ∷ p) v ≡ true) it h))
        | inr g ↦
            exactly c p v (λ s m. Matches.literal c e f g m)
              (rw (pattern_match_inner, e, f, g) at h)
      ]
    ]
  ]

pattern_match_inner-sound :
    (fuel : ℕ) (p v : Chars) → pattern_match_inner fuel p v ≡ true → Matches p v
unfolding pattern_match_inner
pattern_match_inner-sound zero p v h = absurd (cc (h))
pattern_match_inner-sound (suc fuel) [] [] h = Matches.empty
pattern_match_inner-sound (suc fuel) [] (d ∷ ds) h = absurd (cc (h))
pattern_match_inner-sound (suc fuel) (c ∷ p) v h =
    onward fuel (pattern_match_inner-sound fuel) c p v h

many_complete :
    (p t s : Chars)
    → ((fuel : ℕ) → length p + length t < fuel → pattern_match_inner fuel p t ≡ true)
    → (fuel : ℕ) → suc (length p) + length (s ++ t) < fuel
    → pattern_match_inner fuel (b'*' ∷ p) (s ++ t) ≡ true
unfolding pattern_match_inner
many_complete p t s found zero h = absurd (omega (arith, h))
many_complete p t [] found (suc fuel) h =
    rw (pattern_match_inner, found fuel (omega (arith, h))) refl
many_complete p t (d ∷ s) found (suc fuel) h =
    elim (Bool-cases (pattern_match_inner fuel p (d ∷ (s ++ t)))) [
      | inl e ↦ rw (pattern_match_inner, e) refl
      | inr e ↦
          rw (pattern_match_inner, e)
            (on_first-cons (λ d. true) (pattern_match_inner fuel (b'*' ∷ p)) d (s ++ t) refl
              (many_complete p t s found fuel (omega (arith, h))))
    ]

complete :
    (p v : Chars)
    → Matches p v
    → (fuel : ℕ) → length p + length v < fuel
    → pattern_match_inner fuel p v ≡ true
unfolding pattern_match_inner
complete p v m zero h = absurd (omega (arith, h))
complete _ _ Matches.empty (suc fuel) h = refl
complete _ _ (Matches.many {p} {t} s m) (suc fuel) h =
    many_complete p t s (complete p t m) (suc fuel) (omega (arith, h))
complete _ _ (Matches.any {p} {s} c m) (suc fuel) h =
    on_first-cons (λ d. true) (pattern_match_inner fuel p) c s refl
      (complete p s m fuel (omega (arith, h)))
complete _ _ (Matches.class {p} {s} set c n k m) (suc fuel) h =
    rw (pattern_match_inner, split_once-first b']' set p n)
      (on_first-cons (char_class_match set) (pattern_match_inner fuel p) c s k
        (complete p s m fuel (omega (arith, h, length-append set (b']' ∷ p)))))
complete _ _ (Matches.bracket {p} {s} n m) (suc fuel) h =
    rw (pattern_match_inner, split_once-absent b']' p n)
      (on_first-cons (λ d. b'[' == d) (pattern_match_inner fuel p) b'[' s refl
        (complete p s m fuel (omega (arith, h))))
complete _ _ (Matches.literal {p} {s} c e f g m) (suc fuel) h =
    rw (pattern_match_inner, e, f, g)
      (on_first-cons (λ d. c == d) (pattern_match_inner fuel p) c s (==_refl c)
        (complete p s m fuel (omega (arith, h))))

-- The search ends, and it says yes exactly to the texts that match the pattern.
pub pattern_match_iff : (p v : Chars) → (pattern_match p v ≡ true) ↔ Matches p v
unfolding pattern_match
pattern_match_iff p v = (
  pattern_match_inner-sound (suc (length p + length v)) p v,
  λ m. complete p v m (suc (length p + length v)) (omega arith),
)
