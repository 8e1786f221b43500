-- ===== src/P9/Xattr.antt =====
-- `XattrWriteState` of crates/star9-protocol/src/p9.rs: an extended attribute that a client writes
-- in pieces, in any order, before it is committed as a whole.
pub mod Ranges
pub mod Complete
pub mod Content
use star.Base.{
  ℕ, zero, suc, ◌+◌, min, max, Bool, true, false, List, [], ◌∷◌, ◌++◌, Bytes, length, take, drop,
  ltb, leb, ◌==◌, ◌&&◌, ◌||◌, if◌then◌else◌,
}
use star.Core.Error.{ErrorKind, Error, Result, ok, err, ◌>>=◌}
use star.P9.Wire.{usize_max}

-- `Range<u64>`
pub record Range : Type 0 where
  pub start : ℕ
  pub end : ℕ

pub record XattrWriteState : Type 0 where
  pub name : Bytes
  pub flags : ℕ
  pub expected_size : ℕ
  pub content : Bytes
  pub written : List Range
  pub committed : Bool

-- `vec![0; n]`
unfoldable pub zeros : ℕ → Bytes
zeros zero = []
zeros (suc n) = 0 ∷ zeros n

-- `XattrWriteState::new`. A `u64` fits a `usize` of 64 bits.
unfoldable pub new : Bytes → ℕ → ℕ → XattrWriteState
unfolding zeros
new name flags expected_size = record {
  name = name;
  flags = flags;
  expected_size = expected_size;
  content = zeros expected_size;
  written = [];
  committed = false;
}

-- `merged.push(start..end)` unless it was pushed before.
abbrev pub push_new : List Range → Bool → ℕ → ℕ → List Range
push_new merged inserted start end =
    if inserted then merged else merged ++ record { start = start; end = end } ∷ []

-- The loop over `self.written`, with its variables.
unfoldable pub merge_loop : List Range → ℕ → ℕ → List Range → Bool → List Range
merge_loop [] start end merged inserted = push_new merged inserted start end
merge_loop (existing ∷ rest) start end merged inserted =
    let before = merge_loop rest start end (merged ++ existing ∷ []) inserted in
    let behind =
      merge_loop rest start end (push_new merged inserted start end ++ existing ∷ []) true in
    let joined =
      merge_loop rest (min start existing.start) (max end existing.end) merged inserted in
    if ltb existing.end start then before else if ltb end existing.start then behind else joined

unfoldable pub record_write : List Range → ℕ → ℕ → List Range
unfolding merge_loop
record_write written start end =
    if leb end start then written else merge_loop written start end [] false

-- `matches!(self.written.as_slice(), [range] if ..)`
unfoldable pub is_whole : ℕ → List Range → Bool
is_whole size [] = false
is_whole size (range ∷ []) = range.start == 0 && range.end == size
is_whole size (range ∷ next ∷ rest) = false

unfoldable pub is_complete : XattrWriteState → Bool
unfolding is_whole
is_complete w = w.expected_size == 0 || is_whole w.expected_size w.written

abbrev u64_max : ℕ
u64_max = 18446744073709551615

-- `write_at`: the new state and the number of bytes written.
unfoldable pub write_at : XattrWriteState → ℕ → Bytes → Result (ℕ × XattrWriteState)
unfolding record_write
write_at w offset chunk =
    let end = offset + length chunk in
    if ltb u64_max end
    then err (Error.kind ErrorKind.invalid)
    else if ltb w.expected_size end
    then err (Error.kind ErrorKind.invalid)
    else ok (
      length chunk,
      record w {
        content = take offset w.content ++ (chunk ++ drop end w.content);
        written = record_write w.written offset end;
      },
    )
