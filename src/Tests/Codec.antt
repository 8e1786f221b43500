-- ===== src/Tests/Codec.antt =====
-- Runs of the 9P codec of crates/star9-protocol/src/p9.rs.
use star.Base.{◌+◌, ◌≤◌, ◌↔◌, length, ◌≡◌, refl, Bytes, codes, [], ◌∷◌, arith}
use star.Core.Error.{ok}
use star.P9.Wire.{u32_max, le_bytes, put_u8, put_u16, put_u32, put_u64, put_string, try_into}
use star.P9.Wire.Utf8.{is_utf8}
use star.P9.Types.{encode_qid, put_names, put_qids}
use star.P9.Frame.{frame_size, encode_frame}
use star.P9.Request.{NinePRequest, request_body, encode_request}
use star.P9.Request.Decode.{decode_request}
use star.P9.Request.RoundTrip.{decode_request-encode_request, encode_request_iff}
use star.P9.Request.WireForm.{IsTyped, Fits, request_type, request_wire}
use star.P9.Response.WireForm.{Fits as FitsResponse, response_type, response_wire}
use star.P9.Frame.RoundTrip.{wire_frame}
use star.P9.Response.{NinePResponse, response_body, encode_response}
use star.P9.Response.Decode.{decode_response}
use star.P9.Response.RoundTrip.{decode_response-encode_response, encode_response_iff}

abbrev walk_request : NinePRequest
walk_request = NinePRequest.walk 1 2 (codes "dir" ∷ codes "x" ∷ [])

abbrev walk_frame : Bytes
walk_frame =
    25 ∷ 0 ∷ 0 ∷ 0 ∷ 110 ∷ 7 ∷ 0 ∷ 1 ∷ 0 ∷ 0 ∷ 0 ∷ 2 ∷ 0 ∷ 0 ∷ 0 ∷ 2 ∷ 0 ∷ 3 ∷ 0 ∷ b'd' ∷ b'i'
    ∷ b'r' ∷ 1 ∷ 0 ∷ b'x' ∷ []

walk_encoded : encode_request 7 walk_request ≡ ok walk_frame
unfolding encode_request request_body put_names put_u32 put_u16 put_u8 put_string try_into
    encode_frame frame_size le_bytes
walk_encoded = refl

walk_request-IsTyped : IsTyped walk_request
unfolding is_utf8
walk_request-IsTyped = (omega arith, omega arith, (refl, (refl, tt)))

decode_request-encode_request_example : decode_request walk_frame ≡ ok (7, walk_request)
decode_request-encode_request_example =
    decode_request-encode_request 7 walk_request (omega arith) walk_request-IsTyped walk_encoded

abbrev found : NinePResponse
found = NinePResponse.walk (record { typ = 0x80; version = 0; path = 0xcbf29ce484222325 } ∷ [])

abbrev found_frame : Bytes
found_frame =
    22 ∷ 0 ∷ 0 ∷ 0 ∷ 111 ∷ 7 ∷ 0 ∷ 1 ∷ 0 ∷ 0x80 ∷ 0 ∷ 0 ∷ 0 ∷ 0 ∷ 0x25 ∷ 0x23 ∷ 0x22 ∷ 0x84 ∷ 0xe4
    ∷ 0x9c ∷ 0xf2 ∷ 0xcb ∷ []

found_encoded : encode_response 7 found ≡ ok found_frame
unfolding encode_response response_body put_qids encode_qid put_u64 put_u32 put_u16 put_u8 try_into
    encode_frame frame_size le_bytes
found_encoded = refl

decode_response-encode_response_example : decode_response found_frame ≡ ok (7, found)
decode_response-encode_response_example =
    decode_response-encode_response 7 found (omega arith)
      (record { typ = omega arith; version = omega arith; path = omega arith }, tt) found_encoded

encode_request_iff_example : (encode_request 7 walk_request ≡ ok walk_frame) ↔ (
    Fits walk_request
    × (7 + length (request_wire walk_request) ≤ u32_max)
    × (walk_frame ≡ wire_frame (request_type walk_request) 7 (request_wire walk_request)))
encode_request_iff_example = encode_request_iff 7 walk_request walk_frame

encode_response_iff_example : (encode_response 7 found ≡ ok found_frame) ↔ (
    FitsResponse found
    × (7 + length (response_wire found) ≤ u32_max)
    × (found_frame ≡ wire_frame (response_type found) 7 (response_wire found)))
encode_response_iff_example = encode_response_iff 7 found found_frame
