-- ===== src/P9/Frame.antt =====
-- `encode_frame` and `decode_frame` of crates/star9-protocol/src/p9.rs: a size of four bytes, which
-- counts itself, a type, a tag of two bytes and the body.
pub mod RoundTrip
use star.Base.{
  ℕ, ◌+◌, ◌∷◌, ◌++◌, [], Bytes, length, take, drop, ltb, ◌==◌, ◌||◌, not, if◌then◌else◌,
}
use star.Core.Error.{ErrorKind, Error, Result, ok, err, ◌>>=◌}
use star.P9.Wire.{put_u8, put_u16, put_u32, from_le, try_into, usize_max, u32_max}
use star.P9.Decoder.{Decoder, first}

-- `7usize.checked_add(body.len()).and_then(|size| u32::try_from(size).ok()).ok_or(Invalid)`
unfoldable pub frame_size : Bytes → Result ℕ
unfolding try_into
frame_size body =
    let size = 7 + length body in
    if ltb usize_max size then err (Error.kind ErrorKind.invalid) else try_into u32_max size

unfoldable pub encode_frame : ℕ → ℕ → Bytes → Result Bytes
encode_frame typ tag body = do
  size ← frame_size body
  let out1 = put_u32 [] size
  let out2 = put_u8 out1 typ
  let out3 = put_u16 out2 tag
  ok (out3 ++ body)

unfoldable pub decode_frame : Bytes → Result (ℕ × ℕ × Decoder)
decode_frame frame =
    if ltb (length frame) 7
    then err (Error.kind ErrorKind.invalid)
    else (let size = from_le (take 4 frame) in
        if not (size == length frame) || ltb size 7
        then err (Error.kind ErrorKind.invalid)
        else ok (
          first (drop 4 frame),
          from_le (take 2 (drop 5 frame)),
          record { bytes = drop 7 frame; offset = 0 },
        ))
