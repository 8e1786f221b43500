-- ===== src/Rc/Chars.antt =====
-- The characters, the errors and the positions of the rc language of crates/star9-rc/src/lib.rs. A text
-- is the list of its characters there, and of their codes here.
use star.Base.{
  ℕ, ◌+◌, ◌-◌, ◌*◌, ◌^◌, Bool, false, ◌&&◌, ◌||◌, ◌==◌, leb, ltb, List, [], ◌∷◌, Option, none, some,
  if◌then◌else◌, String, codes,
}

abbrev pub Chars : Type 0
Chars = List ℕ

pub record Span : Type 0 where
  pub start : ℕ
  pub end : ℕ

pub record RcError : Type 0 where
  pub message : Chars
  pub span : Option Span

-- `RcResult`, and the answer of a loop that is given up because its steps are used up.
pub data RcResult (T : Type 0) : Type 0 where
  ok : T → RcResult T
  err : RcError → RcResult T
  out_of_fuel : RcResult T

module _ {T U : Type 0} where
  infixl 5 ◌>>=◌
  -- The `?` operator and what follows it.
  abbrev pub ◌>>=◌ : RcResult T → (T → RcResult U) → RcResult U
  ok t >>= next = next t
  err e >>= next = err e
  out_of_fuel >>= next = out_of_fuel

-- `RcError::at`
abbrev pub at : {T : Type 0} → String → ℕ → ℕ → RcResult T
at message start end =
    err (record { message = codes message; span = some (record { start = start; end = end }) })

-- `RcError::new`
abbrev pub plain_error : String → RcError
plain_error message = record { message = codes message; span = none }

abbrev pub within : ℕ → ℕ → ℕ → Bool
within low high c = leb low c && leb c high

-- `char::is_whitespace`
unfoldable pub is_whitespace : ℕ → Bool
is_whitespace c =
    within 9 13 c
    || c == 32
    || c == 0x85
    || c == 0xa0
    || c == 0x1680
    || within 0x2000 0x200a c
    || c == 0x2028
    || c == 0x2029
    || c == 0x202f
    || c == 0x205f
    || c == 0x3000

-- `char::is_ascii_digit`
abbrev pub is_digit : ℕ → Bool
is_digit = within 48 57

-- `char::is_ascii_alphabetic`
abbrev pub is_alphabetic : ℕ → Bool
is_alphabetic c = within 65 90 c || within 97 122 c

-- `contains` of a text and a character.
unfoldable pub has_char : ℕ → Chars → Bool
has_char c [] = false
has_char c (d ∷ ds) = d == c || has_char c ds

-- `split_once`
unfoldable pub split_once : ℕ → Chars → Option (Chars × Chars)
split_once c [] = none
split_once c (d ∷ ds) =
    let rest = split_once c ds in
    if d == c
    then some ([], ds)
    else elim rest [ none ↦ none | some (left, right) ↦ some (d ∷ left, right) ]

-- The digits of a number that has to stay below `limit`.
unfoldable pub parse_digits : ℕ → ℕ → Chars → Option ℕ
parse_digits limit n [] = some n
parse_digits limit n (c ∷ cs) =
    let next = n * 10 + (c - 48) in
    let rest = parse_digits limit next cs in if is_digit c && ltb next limit then rest else none

-- `parse` to an unsigned number, before which a plus is allowed.
unfoldable pub parse_below : ℕ → Chars → Option ℕ
unfolding parse_digits
parse_below limit [] = none
parse_below limit (c ∷ []) = parse_digits limit 0 (c ∷ [])
parse_below limit (c ∷ d ∷ cs) =
    if c == b'+' then parse_digits limit 0 (d ∷ cs) else parse_digits limit 0 (c ∷ d ∷ cs)

abbrev pub parse_u32 : Chars → Option ℕ
parse_u32 = parse_below (2 ^ 32)

abbrev pub parse_usize : Chars → Option ℕ
parse_usize = parse_below (2 ^ 64)

abbrev pub unwrap_or : Option ℕ → ℕ → ℕ
unwrap_or none d = d
unwrap_or (some n) d = n
