-- ===== src/P9/Decoder.antt =====
-- `Decoder` of crates/star9-protocol/src/p9.rs: a cursor over the body of a frame.
pub mod Reads
use star.Base.{ℕ, ◌+◌, Bool, [], ◌∷◌, Bytes, length, take, drop, ltb, leb, ◌==◌, if◌then◌else◌}
use star.Core.Error.{ErrorKind, Error, Result, ok, err}
use star.P9.Wire.{from_le, usize_max}
use star.P9.Wire.Utf8.{from_utf8}

-- `struct Decoder`: a slice and the position of the next byte to read.
pub record Decoder : Type 0 where
  pub bytes : Bytes
  pub offset : ℕ

-- A method of `Decoder`: on an error the caller drops the decoder.
abbrev pub Decode {ℓ} : Type ℓ → Type ℓ
Decode A = Decoder → Result (A × Decoder)

infixl 5 ◌>>=◌
-- `self.m()?` and the rest.
unfoldable pub ◌>>=◌ {ℓ κ} : {A : Type ℓ} {B : Type κ} → Decode A → (A → Decode B) → Decode B
◌>>=◌ m f d = elim (m d) [ ok (a, d') ↦ f a d' | err e ↦ err e ]

-- `Ok(a)`
unfoldable pub pure {ℓ} : {A : Type ℓ} → A → Decode A
pure a d = ok (a, d)

-- A step that reads nothing.
unfoldable pub lift {ℓ} : {A : Type ℓ} → Result A → Decode A
lift (ok a) d = ok (a, d)
lift (err e) d = err e

unfoldable pub is_empty : Decoder → Bool
is_empty d = d.offset == length d.bytes

unfoldable pub finish : Decode (Unit {0})
finish d = if is_empty d then ok (tt, d) else err (Error.kind ErrorKind.invalid)

-- `bytes`: the addition is checked, and so is the slice.
unfoldable pub read_bytes : ℕ → Decode Bytes
read_bytes len d =
    let end = d.offset + len in
    if ltb usize_max end
    then err (Error.kind ErrorKind.invalid)
    else if leb end (length d.bytes)
    then ok (take len (drop d.offset d.bytes), record d { offset = end })
    else err (Error.kind ErrorKind.unexpected_eof)

-- An unsigned number of `n` bytes.
unfoldable pub read_le : ℕ → Decode ℕ
read_le n = do bs ← read_bytes n; pure (from_le bs)

-- `[0]` of a slice that is not empty.
unfoldable pub first : Bytes → ℕ
first [] = 0
first (b ∷ bs) = b

unfoldable pub read_u8 : Decode ℕ
read_u8 = do bs ← read_bytes 1; pure (first bs)

unfoldable pub read_u16 : Decode ℕ
read_u16 = read_le 2

unfoldable pub read_u32 : Decode ℕ
read_u32 = read_le 4

unfoldable pub read_u64 : Decode ℕ
read_u64 = read_le 8

unfoldable pub read_string : Decode Bytes
read_string = do len ← read_u16; bs ← read_bytes len; lift (from_utf8 bs)

unfoldable pub read_counted_data : Decode Bytes
read_counted_data = do len ← read_u32; read_bytes len
