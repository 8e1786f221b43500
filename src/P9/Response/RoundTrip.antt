-- ===== src/P9/Response/RoundTrip.antt =====
-- `decode_response` undoes `encode_response`.
use star.Base.{ℕ, ◌+◌, ◌≤◌, ◌≡◌, refl, sym, ap, ◌∙◌, ◌↔◌, [], Bytes, length, arith}
use star.Core.Error.{ok, >>=-eq_ok, ok-injective}
use star.P9.Wire.{u32_max}
use star.P9.Decoder.{Decoder, ◌>>=◌, pure}
use star.P9.Frame.{encode_frame}
use star.P9.Frame.RoundTrip.{
  wire_frame, encode_frame_small, small-encode_frame, decode_frame-wire, Reads-finish,
}
use star.P9.Decoder.Reads.{
  At, finish-At, Reads, Reads-pure, Reads-bind, Reads-last, Reads-counted_data, Reads-string,
  Reads-u32, Reads-u64,
}
use star.P9.Types.Reads.{IsU16, Reads-attr, Reads-qid}
use star.P9.Types.Counted.{Reads-qids}
use star.P9.Response.{
  NinePResponse, lerror, version, attach, walk, lopen, lcreate, get_attr, set_attr, xattr_walk,
  xattr_create, read, write, clunk, remove, mkdir, link, readdir, rename_at, unlink_at, symlink,
  readlink, fsync, flush, encode_response,
}
use star.P9.Response.Decode.{decode_response_body, finish_response, decode_response}
use star.P9.Response.WireForm.{
  response_type, response_wire, IsTyped, Fits, response_body-Fits, Fits-response_body,
}

-- The body that stands for a response is read back, whatever follows it.
Reads-response_wire :
    (m : NinePResponse)
    → IsTyped m
    → Fits m
    → Reads (decode_response_body (response_type m)) (response_wire m) m
unfolding decode_response_body
Reads-response_wire (lerror ecode) h k = Reads-last _ _ (Reads-u32 ecode h) (Reads-pure _)
Reads-response_wire (version msize ver) h k =
    Reads-bind _ _ (Reads-u32 msize h.0) (Reads-last _ _ (Reads-string ver k h.1) (Reads-pure _))
Reads-response_wire (attach qid) h k = Reads-last _ _ (Reads-qid qid h) (Reads-pure _)
Reads-response_wire (walk qids) h k = Reads-last _ _ (Reads-qids qids k h) (Reads-pure _)
Reads-response_wire (lopen qid iounit) h k =
    Reads-bind _ _ (Reads-qid qid h.0) (Reads-last _ _ (Reads-u32 iounit h.1) (Reads-pure _))
Reads-response_wire (lcreate qid iounit) h k =
    Reads-bind _ _ (Reads-qid qid h.0) (Reads-last _ _ (Reads-u32 iounit h.1) (Reads-pure _))
Reads-response_wire (get_attr attr) h k = Reads-last _ _ (Reads-attr attr h) (Reads-pure _)
Reads-response_wire set_attr h k = Reads-pure _
Reads-response_wire (xattr_walk size) h k = Reads-last _ _ (Reads-u64 size h) (Reads-pure _)
Reads-response_wire xattr_create h k = Reads-pure _
Reads-response_wire (read content) h k =
    Reads-last _ _ (Reads-counted_data content k) (Reads-pure _)
Reads-response_wire (write count) h k = Reads-last _ _ (Reads-u32 count h) (Reads-pure _)
Reads-response_wire clunk h k = Reads-pure _
Reads-response_wire remove h k = Reads-pure _
Reads-response_wire (mkdir qid) h k = Reads-last _ _ (Reads-qid qid h) (Reads-pure _)
Reads-response_wire link h k = Reads-pure _
Reads-response_wire (readdir content) h k =
    Reads-last _ _ (Reads-counted_data content k) (Reads-pure _)
Reads-response_wire rename_at h k = Reads-pure _
Reads-response_wire unlink_at h k = Reads-pure _
Reads-response_wire (symlink qid) h k = Reads-last _ _ (Reads-qid qid h) (Reads-pure _)
Reads-response_wire (readlink target) h k = Reads-last _ _ (Reads-string target k h) (Reads-pure _)
Reads-response_wire fsync h k = Reads-pure _
Reads-response_wire flush h k = Reads-pure _

finish_response-At :
    (tag : ℕ) (m : NinePResponse) (d : Decoder)
    → At d []
    → finish_response tag m d ≡ ok ((tag, m), d)
unfolding finish_response ◌>>=◌ pure
finish_response-At tag m d a = rw (finish-At d a, finish_response, ◌>>=◌) refl

decode_response-wire :
    (tag : ℕ) (m : NinePResponse)
    → IsU16 tag
    → IsTyped m
    → Fits m
    → 7 + length (response_wire m) ≤ u32_max
    → decode_response (wire_frame (response_type m) tag (response_wire m)) ≡ ok (tag, m)
unfolding decode_response
decode_response-wire tag m ht h k small =
    rw (decode_frame-wire (response_type m) tag (response_wire m) ht small, decode_response)
      (rw
        (Reads-finish (decode_response_body (response_type m)) (finish_response tag)
          (response_wire m) (Reads-response_wire m h k) (omega arith) (finish_response-At tag m))
        refl)

encode_response-Fits :
    (tag : ℕ) (m : NinePResponse)
    → Fits m
    → encode_response tag m ≡ encode_frame (response_type m) tag (response_wire m)
unfolding encode_response
encode_response-Fits tag m k = rw (response_body-Fits m k) refl

Fits-encode_response :
    (tag : ℕ) (m : NinePResponse) {frame : Bytes} → encode_response tag m ≡ ok frame → Fits m
unfolding encode_response
Fits-encode_response tag m e = Fits-response_body m (>>=-eq_ok _ _ e).1

-- What `encode_response` writes, for a tag and a response whose fields are values of their machine types,
-- `decode_response` reads back as that tag and that response.
pub decode_response-encode_response :
    (tag : ℕ) (m : NinePResponse) {frame : Bytes}
    → IsU16 tag
    → IsTyped m
    → encode_response tag m ≡ ok frame
    → decode_response frame ≡ ok (tag, m)
decode_response-encode_response tag m ht h e =
    let k : Fits m = Fits-encode_response tag m e in
    let e' = rw (encode_response-Fits tag m k) at e in
    let small = small-encode_frame (response_type m) tag (response_wire m) e' in
    let same = encode_frame_small (response_type m) tag (response_wire m) small in
    ok-injective (sym same ∙ e') (λ f. decode_response f ≡ ok (tag, m))
      (decode_response-wire tag m ht h k small)

-- `encode_response` returns a frame exactly when each string, list and data fits its count field and the
-- frame's size fits four bytes; that frame is then the size, the type, the tag and the wire form.
pub encode_response_iff :
    (tag : ℕ) (m : NinePResponse) (frame : Bytes)
    → (encode_response tag m ≡ ok frame) ↔ (
        Fits m
        × (7 + length (response_wire m) ≤ u32_max)
        × (frame ≡ wire_frame (response_type m) tag (response_wire m)))
encode_response_iff tag m frame =
    (to, λ h. encode_response-Fits tag m h.0 ∙ encode_frame_small _ tag _ h.1 ∙ ap ok (sym h.2))
  where
    to :
        encode_response tag m ≡ ok frame
        → Fits m
          × (7 + length (response_wire m) ≤ u32_max)
          × (frame ≡ wire_frame (response_type m) tag (response_wire m))
    to e =
        let k : Fits m = Fits-encode_response tag m e in
        let e' = rw (encode_response-Fits tag m k) at e in
        let small = small-encode_frame (response_type m) tag (response_wire m) e' in
        let same = encode_frame_small (response_type m) tag (response_wire m) small in
        (k, small, cc (same, e'))
