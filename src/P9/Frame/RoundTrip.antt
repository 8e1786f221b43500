-- ===== src/P9/Frame/RoundTrip.antt =====
-- `decode_frame` undoes `encode_frame`.
use star.Base.{ℕ, ◌+◌, ◌≤◌, ◌≡◌, sym, [], ◌∷◌, ◌++◌, append-nil, Bytes, length, arith}
use star.Core.Error.{ok}
use star.P9.Wire.{le_bytes, from_le, u32_max, usize_max, try_into, put_u8, put_u16, put_u32}
use star.P9.Wire.Numbers.{from_le-le_bytes}
use star.P9.Decoder.{Decoder, Decode, ◌>>=◌, first}
use star.P9.Decoder.Reads.{Reads, At, At-skip, skip}
use star.P9.Types.Reads.{IsU16}
use star.P9.Frame.{frame_size, encode_frame, decode_frame}

-- The bytes of a frame.
abbrev pub wire_frame : ℕ → ℕ → Bytes → Bytes
wire_frame typ tag body = le_bytes 4 (7 + length body) ++ typ ∷ (le_bytes 2 tag ++ body)

pub encode_frame_small :
    (typ tag : ℕ) (body : Bytes)
    → 7 + length body ≤ u32_max
    → encode_frame typ tag body ≡ ok (wire_frame typ tag body)
unfolding encode_frame frame_size try_into put_u8 put_u16 put_u32 le_bytes
encode_frame_small typ tag body h = ground arith

pub small-encode_frame :
    (typ tag : ℕ) (body : Bytes) {frame : Bytes}
    → encode_frame typ tag body ≡ ok frame
    → 7 + length body ≤ u32_max
unfolding encode_frame frame_size try_into
small-encode_frame typ tag body e = ground arith

abbrev pub start : Bytes → Decoder
start body = record { bytes = body; offset = 0 }

size_back :
    (body : Bytes)
    → 7 + length body ≤ u32_max
    → from_le (le_bytes 4 (7 + length body)) ≡ 7 + length body
size_back body h = from_le-le_bytes 4 _ (omega arith)

pub decode_frame-wire :
    (typ tag : ℕ) (body : Bytes)
    → IsU16 tag
    → 7 + length body ≤ u32_max
    → decode_frame (wire_frame typ tag body) ≡ ok (typ, tag, start body)
unfolding decode_frame le_bytes first
decode_frame-wire typ tag body ht h = ground (arith, size_back body h, from_le-le_bytes 2 tag ht)

-- A decoder that reads a whole body, and accepts its end.
pub Reads-finish {ℓ κ} :
    {A : Type ℓ} {B : Type κ} (m : Decode A) (f : A → Decode B) (body : Bytes) {a : A} {b : B}
    → Reads m body a
    → length body ≤ usize_max
    → ((d : Decoder) → At d [] → f a d ≡ ok (b, d))
    → (m >>= f) (start body) ≡ ok (b, skip (length body) (start body))
unfolding ◌>>=◌
Reads-finish m f body r h k =
    let a0 : At (start body) (body ++ []) = record {
      inside = omega arith;
      small = h;
      left = sym (append-nil body);
    } in
    rw (r.run (start body) [] a0, ◌>>=◌) (k _ (At-skip body [] a0))
