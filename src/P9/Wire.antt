-- ===== src/P9/Wire.antt =====
-- The byte level of crates/star9-protocol/src/p9.rs: `put_*`.
-- A `usize` has 64 bits.
pub mod Utf8
pub mod Numbers
use star.Base.{
  ℕ, zero, suc, ◌+◌, ◌*◌, ◌/◌, ◌%◌, Bool, [], ◌∷◌, ◌++◌, Bytes, length, leb, if◌then◌else◌,
}
use star.Core.Error.{ErrorKind, Error, Result, ok, err, ◌>>=◌}

-- `to_le_bytes` of an unsigned number of `n` bytes.
unfoldable pub le_bytes : ℕ → ℕ → Bytes
le_bytes zero v = []
le_bytes (suc n) v = (v % 256) ∷ le_bytes n (v / 256)

-- `from_le_bytes`
unfoldable pub from_le : Bytes → ℕ
from_le [] = 0
from_le (b ∷ bs) = b + 256 * from_le bs

unfoldable pub put_u8 : Bytes → ℕ → Bytes
put_u8 out value = out ++ (value ∷ [])

unfoldable pub put_u16 : Bytes → ℕ → Bytes
put_u16 out value = out ++ le_bytes 2 value

unfoldable pub put_u32 : Bytes → ℕ → Bytes
put_u32 out value = out ++ le_bytes 4 value

unfoldable pub put_u64 : Bytes → ℕ → Bytes
put_u64 out value = out ++ le_bytes 8 value

-- `n.try_into().map_err(|_| ErrorKind::Invalid)` into a number of at most `most`.
unfoldable pub try_into : ℕ → ℕ → Result ℕ
try_into most n = if leb n most then ok n else err (Error.kind ErrorKind.invalid)

abbrev pub u16_max : ℕ
u16_max = 65535

abbrev pub u32_max : ℕ
u32_max = 4294967295

abbrev pub usize_max : ℕ
usize_max = 18446744073709551615

unfoldable pub put_string : Bytes → Bytes → Result Bytes
put_string out value = do
  len ← try_into u16_max (length value)
  let out' = put_u16 out len
  ok (out' ++ value)

unfoldable pub put_counted_data : Bytes → Bytes → Result Bytes
put_counted_data out value = do
  len ← try_into u32_max (length value)
  let out' = put_u32 out len
  ok (out' ++ value)
