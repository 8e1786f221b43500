-- ===== src/Rc/Status.antt =====
-- `RcStatus` of crates/star9-rc/src/lib.rs: a status is a text.
use star.Base.{
  ℕ, ◌≡◌, refl, ap, sym, ◌∙◌, Bool, true, false, ◌||◌, ◌&&◌, ◌==◌, List, [], ◌∷◌, ◌++◌, codes,
  bytes_eq, bytes_eq_iff, if◌then◌else◌, arith, Bool-cases, inl, inr,
}
use star.Rc.Chars.{Chars, has_char}
use star.Rc.Values.{split_at, cons_first}

abbrev pub success : Chars
success = []

abbrev pub failure : Chars
failure = codes "false"

-- `part.is_empty() || part == "0"`
unfoldable pub is_zero : Chars → Bool
is_zero [] = true
is_zero (c ∷ cs) = bytes_eq (c ∷ cs) (codes "0")

unfoldable pub all_zero : List Chars → Bool
unfolding is_zero
all_zero [] = true
all_zero (part ∷ parts) = is_zero part && all_zero parts

abbrev pub is_bar : ℕ → Bool
is_bar c = c == b'|'

unfoldable pub is_success : Chars → Bool
unfolding is_zero all_zero
is_success status = is_zero status || has_char b'|' status && all_zero (split_at is_bar status)

unfoldable pub invert : Chars → Chars
unfolding is_success
invert status = if is_success status then failure else success

unfoldable pub from_status : Chars → Chars
from_status status = if bytes_eq status (codes "0") then success else status

unfoldable pub or_zero : Chars → Chars
or_zero [] = codes "0"
or_zero (c ∷ cs) = c ∷ cs

unfoldable pub pipeline : Chars → Chars → Chars
unfolding or_zero
pipeline left right = or_zero left ++ b'|' ∷ or_zero right

all_zero-append : (xs ys : List Chars) → all_zero (xs ++ ys) ≡ (all_zero xs && all_zero ys)
unfolding all_zero
all_zero-append [] ys = refl
all_zero-append (x ∷ xs) ys = ground (arith, all_zero-append xs ys)

cons_first-append :
    (c : ℕ) (p : Chars) (xs ys : List Chars)
    → cons_first c ((p ∷ xs) ++ ys) ≡ cons_first c (p ∷ xs) ++ ys
unfolding cons_first
cons_first-append c p xs ys = refl

-- A text is split into one part at least.
split_at-cons :
    (p : ℕ → Bool) (cs : Chars)
    → (first : Chars) × (more : List Chars) × (split_at p cs ≡ first ∷ more)
unfolding split_at cons_first
split_at-cons p [] = ([], [], refl)
split_at-cons p (c ∷ cs) = elim (Bool-cases (p c)) [
  | inl e ↦ ([], split_at p cs, rw (split_at, e) refl)
  | inr e ↦ let (first, more, q) = split_at-cons p cs in (c ∷ first, more, rw (split_at, e, q) refl)
]

split_at-bar :
    (a b : Chars) → split_at is_bar (a ++ b'|' ∷ b) ≡ split_at is_bar a ++ split_at is_bar b
unfolding split_at cons_first
split_at-bar [] b = refl
split_at-bar (c ∷ a) b = elim (Bool-cases (is_bar c)) [
  | inl e ↦ rw (split_at, e, split_at-bar a b) refl
  | inr e ↦
      let (first, more, q) = split_at-cons is_bar a in rw (split_at, e, split_at-bar a b, q) refl
]

split_at-no_bar : (a : Chars) → has_char b'|' a ≡ false → split_at is_bar a ≡ a ∷ []
unfolding split_at cons_first has_char
split_at-no_bar [] h = refl
split_at-no_bar (c ∷ a) h = elim (Bool-cases (is_bar c)) [
  | inl e ↦ absurd (cc (rw e at h))
  | inr e ↦ rw (split_at, e, split_at-no_bar a (rw e at h)) refl
]

has_bar : (a b : Chars) → has_char b'|' (a ++ b'|' ∷ b) ≡ true
unfolding has_char
has_bar [] b = refl
has_bar (c ∷ a) b = ground (arith, has_bar a b)

zero-no_bar : (status : Chars) → is_zero status ≡ true → has_char b'|' status ≡ false
unfolding is_zero has_char
zero-no_bar [] h = refl
zero-no_bar (c ∷ cs) h = ap (has_char b'|') ((bytes_eq_iff (c ∷ cs) (codes "0")).0 h)

bar-no_zero : (status : Chars) → has_char b'|' status ≡ true → is_zero status ≡ false
bar-no_zero status h = elim (Bool-cases (is_zero status)) [
  | inl e ↦ absurd (cc (h, zero-no_bar status e))
  | inr e ↦ e
]

-- With a bar in it, a status is as good as its parts.
is_success-bar :
    (status : Chars)
    → has_char b'|' status ≡ true
    → is_success status ≡ all_zero (split_at is_bar status)
unfolding is_success
is_success-bar status h = rw (bar-no_zero status h, h) refl

-- Without a bar, it is one part.
alone : (status : Chars) → has_char b'|' status ≡ false → all_zero (status ∷ []) ≡ is_success status
unfolding all_zero is_success
alone status h = ground (arith, h)

all_zero-status : (status : Chars) → all_zero (split_at is_bar status) ≡ is_success status
all_zero-status status = elim (Bool-cases (has_char b'|' status)) [
  | inl h ↦ sym (is_success-bar status h)
  | inr h ↦ ap all_zero (split_at-no_bar status h) ∙ alone status h
]

all_zero-or_zero :
    (status : Chars) → all_zero (split_at is_bar (or_zero status)) ≡ is_success status
unfolding or_zero is_success split_at cons_first all_zero is_zero bytes_eq
all_zero-or_zero [] = refl
all_zero-or_zero (c ∷ cs) = all_zero-status (c ∷ cs)

-- A pipeline succeeds exactly when both of its sides do.
pub is_success-pipeline :
    (left right : Chars) → is_success (pipeline left right) ≡ (is_success left && is_success right)
unfolding pipeline
is_success-pipeline left right =
    is_success-bar (pipeline left right) (has_bar (or_zero left) (or_zero right))
    ∙ ap all_zero (split_at-bar (or_zero left) (or_zero right))
    ∙ all_zero-append (split_at is_bar (or_zero left)) (split_at is_bar (or_zero right))
    ∙ rw (all_zero-or_zero left, all_zero-or_zero right) refl
