-- ===== src/Rc/Glob/Matches.antt =====
-- What it means for a text to match a pattern of crates/star9-rc/src/lib.rs, with no search in it.

use star.Base.{
  ℕ, ◌≡◌, refl, ap, subst, ◌∙◌, true, false, ◌==◌, ==_iff, ==_refl, [], ◌∷◌, ◌++◌, arith,
  Bool-cases, Option, Option-cases, none, some, inl, inr,
}
use star.Rc.Chars.{Chars, has_char, split_once}
use star.Rc.Glob.{char_class_match}

pub data Matches : Chars → Chars → Type 0 where
  empty : Matches [] []
  many : {p t : Chars} (s : Chars) → Matches p t → Matches (b'*' ∷ p) (s ++ t)
  any : {p s : Chars} (c : ℕ) → Matches p s → Matches (b'?' ∷ p) (c ∷ s)
  class :
      {p s : Chars} (set : Chars) (c : ℕ)
      → has_char b']' set ≡ false
      → char_class_match set c ≡ true
      → Matches p s
      → Matches (b'[' ∷ set ++ b']' ∷ p) (c ∷ s)
  bracket : {p s : Chars} → has_char b']' p ≡ false → Matches p s → Matches (b'[' ∷ p) (b'[' ∷ s)
  literal :
      {p s : Chars} (c : ℕ)
      → (c == b'*') ≡ false
      → (c == b'?') ≡ false
      → (c == b'[') ≡ false
      → Matches p s
      → Matches (c ∷ p) (c ∷ s)

pub split_once-none : (c : ℕ) (p : Chars) → split_once c p ≡ none → has_char c p ≡ false
unfolding split_once has_char
split_once-none c [] e = refl
split_once-none c (d ∷ p) e = ground (arith, split_once-none c p, e)

-- The parts of a pair that was found.
first : Option (Chars × Chars) → Chars
first none = []
first (some (l, r)) = l

second : Option (Chars × Chars) → Chars
second none = []
second (some (l, r)) = r

parts :
    (a b set rest : Chars)
    → ◌≡◌ {A = Option (Chars × Chars)} (some (a, b)) (some (set, rest))
    → (a ≡ set) × (b ≡ rest)
unfolding first second
parts a b set rest e = (ap first e, ap second e)

pub split_once-some :
    (c : ℕ) (p set rest : Chars)
    → split_once c p ≡ some (set, rest)
    → (p ≡ set ++ c ∷ rest) × (has_char c set ≡ false)
unfolding split_once has_char
split_once-some c [] set rest e = absurd (cc (e))
split_once-some c (d ∷ p) set rest e = elim (Bool-cases (d == c)) [
  | inl h ↦
      let (l, r) = parts [] p set rest (rw h at e) in
      (
        subst (λ x. d ∷ p ≡ x ++ c ∷ rest) l
            (ap (λ x. x ∷ p) ((==_iff d c).0 h) ∙ ap (λ x. c ∷ x) r),
        subst (λ x. has_char c x ≡ false) l refl,
      )
  | inr h ↦ elim (Option-cases (split_once c p)) [
    | inl n ↦ absurd (cc (rw (h, split_once, n) at e))
    | inr ((set', rest'), q) ↦
        let (l, r) = parts (d ∷ set') rest' set rest (rw (split_once, h, q) at e) in
        let (same, free) = split_once-some c p set' rest' q in
        (
          ap (λ x. d ∷ x) same ∙ ap (λ x. d ∷ (set' ++ c ∷ x)) r ∙ ap (λ x. x ++ c ∷ rest) l,
          subst (λ x. has_char c x ≡ false) l (rw (has_char, h) free),
        )
  ]
]

pub split_once-first :
    (c : ℕ) (set rest : Chars)
    → has_char c set ≡ false
    → split_once c (set ++ c ∷ rest) ≡ some (set, rest)
unfolding split_once has_char
split_once-first c [] rest e = rw (==_refl c) refl
split_once-first c (d ∷ set) rest e = elim (Bool-cases (d == c)) [
  | inl h ↦ absurd (cc (rw h at e))
  | inr h ↦ rw (split_once, h, split_once-first c set rest (rw h at e)) refl
]

pub split_once-absent : (c : ℕ) (p : Chars) → has_char c p ≡ false → split_once c p ≡ none
unfolding split_once has_char
split_once-absent c [] e = refl
split_once-absent c (d ∷ p) e = elim (Bool-cases (d == c)) [
  | inl h ↦ absurd (cc (rw h at e))
  | inr h ↦ rw (split_once, h, split_once-absent c p (rw h at e)) refl
]
