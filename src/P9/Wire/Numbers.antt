-- ===== src/P9/Wire/Numbers.antt =====
-- Little-endian numbers: `to_le_bytes` and `from_le_bytes`.
use star.Base.{
  ℕ, zero, suc, ◌+◌, ◌*◌, ◌/◌, ◌%◌, ◌^◌, ◌<◌, ◌≡◌, refl, ap, [], ◌∷◌, Bytes, IsByte, All, length,
  arith,
}
use star.P9.Wire.{le_bytes, from_le}
use native.Mathlib.Nat.{div-add-mod, pow-suc}

pub length-le_bytes : (n v : ℕ) → length (le_bytes n v) ≡ n
unfolding le_bytes
length-le_bytes zero v = refl
length-le_bytes (suc n) v = ap suc (length-le_bytes n (v / 256))

pub le_bytes-IsByte : (n v : ℕ) → All IsByte (le_bytes n v)
unfolding le_bytes
le_bytes-IsByte zero v = tt
le_bytes-IsByte (suc n) v = (omega arith, le_bytes-IsByte n (v / 256))

div_below : (n v : ℕ) → v < 256 ^ suc n → v / 256 < 256 ^ n
div_below n v h = omega (arith, pow-suc 256 n)

-- A number that fits is read back.
pub from_le-le_bytes : (n v : ℕ) → v < 256 ^ n → from_le (le_bytes n v) ≡ v
unfolding le_bytes from_le
from_le-le_bytes zero v h = omega arith
from_le-le_bytes (suc n) v h =
    omega (arith, from_le-le_bytes n (v / 256) (div_below n v h), div-add-mod v 256)

-- Bytes are written back.
pub le_bytes-from_le : (bs : Bytes) → All IsByte bs → le_bytes (length bs) (from_le bs) ≡ bs
unfolding le_bytes from_le
le_bytes-from_le [] h = refl
le_bytes-from_le (b ∷ bs) h =
    cc (low b (from_le bs) h.0, high b (from_le bs) h.0, le_bytes-from_le bs h.1)
  where
    low : (b n : ℕ) → b < 256 → (b + 256 * n) % 256 ≡ b
    low b n h = omega arith

    high : (b n : ℕ) → b < 256 → (b + 256 * n) / 256 ≡ n
    high b n h = omega arith

pub from_le_lt : (bs : Bytes) → All IsByte bs → from_le bs < 256 ^ length bs
unfolding from_le
from_le_lt [] h = omega arith
from_le_lt (b ∷ bs) h = omega (arith, from_le_lt bs h.1, h.0, pow-suc 256 (length bs))
