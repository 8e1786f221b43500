-- ===== src/P9/Wire/Utf8.antt =====
-- `String::from_utf8`: which byte strings are UTF-8, by the table of well-formed sequences.
use star.Base.{
  ℕ, zero, suc, ◌≡◌, refl, Bool, true, false, ◌&&◌, Option, none, some, [], ◌∷◌, Bytes, ltb, leb,
  ◌==◌, if◌then◌else◌,
}
use star.Core.Error.{ErrorKind, Error, Result, ok, err}

-- What has been read of the current character: how many bytes are missing, and the range of the
-- next one.
pub record Pending : Type 0 where
  pub missing : ℕ
  pub lo : ℕ
  pub hi : ℕ

abbrev pub between : Pending
between = record { missing = 0; lo = 0x80; hi = 0xbf }

abbrev in_range : ℕ → ℕ → ℕ → Bool
in_range lo hi b = leb lo b && leb b hi

-- The first byte of a character.
abbrev lead : ℕ → Option Pending
lead b =
    if ltb b 0x80
    then some between
    else if in_range 0xc2 0xdf b
    then some (record { missing = 1; lo = 0x80; hi = 0xbf })
    else if b == 0xe0
    then some (record { missing = 2; lo = 0xa0; hi = 0xbf })
    else if b == 0xed
    then some (record { missing = 2; lo = 0x80; hi = 0x9f })
    else if in_range 0xe1 0xef b
    then some (record { missing = 2; lo = 0x80; hi = 0xbf })
    else if b == 0xf0
    then some (record { missing = 3; lo = 0x90; hi = 0xbf })
    else if in_range 0xf1 0xf3 b
    then some (record { missing = 3; lo = 0x80; hi = 0xbf })
    else if b == 0xf4
    then some (record { missing = 3; lo = 0x80; hi = 0x8f })
    else none

abbrev continuation : ℕ → ℕ → ℕ → ℕ → Option Pending
continuation n lo hi b =
    if in_range lo hi b then some (record { missing = n; lo = 0x80; hi = 0xbf }) else none

abbrev accept : ℕ → ℕ → ℕ → ℕ → Option Pending
accept zero lo hi b = lead b
accept (suc n) lo hi b = continuation n lo hi b

utf8_run : Bytes → Pending → Bool
utf8_run [] p = p.missing == 0
utf8_run (b ∷ bs) p = elim (accept p.missing p.lo p.hi b) [ none ↦ false | some q ↦ utf8_run bs q ]

unfoldable pub is_utf8 : Bytes → Bool
unfolding utf8_run
is_utf8 bs = utf8_run bs between

-- `String::from_utf8(bytes).map_err(|_| ErrorKind::Invalid.into())`
unfoldable pub from_utf8 : Bytes → Result Bytes
from_utf8 bs = if is_utf8 bs then ok bs else err (Error.kind ErrorKind.invalid)

euro_sign : is_utf8 (0xe2 ∷ 0x82 ∷ 0xac ∷ b'!' ∷ []) ≡ true
unfolding is_utf8
euro_sign = refl

surrogate : is_utf8 (0xed ∷ 0xa0 ∷ 0x80 ∷ []) ≡ false
unfolding is_utf8
surrogate = refl
