-- ===== src/P9/Request/RoundTrip.antt =====
-- `decode_request` undoes `encode_request`.
use star.Base.{ℕ, ◌+◌, ◌≤◌, ◌≡◌, refl, sym, ap, ◌∙◌, ◌↔◌, [], Bytes, length, arith}
use star.Core.Error.{ok, >>=-eq_ok, ok-injective}
use star.P9.Wire.{u32_max}
use star.P9.Decoder.{Decoder, ◌>>=◌, pure}
use star.P9.Frame.{encode_frame}
use star.P9.Frame.RoundTrip.{
  wire_frame, encode_frame_small, small-encode_frame, decode_frame-wire, Reads-finish,
}
use star.P9.Decoder.Reads.{
  At, finish-At, Reads, Reads-pure, Reads-bind, Reads-last, Reads-counted_data, Reads-string,
  Reads-u16, Reads-u32, Reads-u64,
}
use star.P9.Types.Reads.{IsU16, Reads-setattr}
use star.P9.Types.Counted.{Reads-names}
use star.P9.Request.{
  NinePRequest, version, attach, walk, lopen, lcreate, get_attr, set_attr, xattr_walk, xattr_create,
  read, write, clunk, remove, mkdir, link, readdir, rename_at, unlink_at, symlink, readlink, fsync,
  flush, encode_request,
}
use star.P9.Request.Decode.{decode_request_body, finish_request, decode_request}
use star.P9.Request.WireForm.{
  request_type, request_wire, IsTyped, Fits, request_body-Fits, Fits-request_body,
}

-- The body that stands for a request is read back, whatever follows it.
Reads-request_wire :
    (m : NinePRequest)
    → IsTyped m
    → Fits m
    → Reads (decode_request_body (request_type m)) (request_wire m) m
unfolding decode_request_body
Reads-request_wire (version msize ver) h k =
    Reads-bind _ _ (Reads-u32 msize h.0) (Reads-last _ _ (Reads-string ver k h.1) (Reads-pure _))
Reads-request_wire (attach fid afid uname aname n_uname) h k = Reads-bind _ _ (Reads-u32 fid h.0) (
    Reads-bind _ _ (Reads-u32 afid h.1) (
      Reads-bind _ _ (Reads-string uname k.0 h.2) (
        Reads-bind _ _ (Reads-string aname k.1 h.3)
          (Reads-last _ _ (Reads-u32 n_uname h.4) (Reads-pure _)))))
Reads-request_wire (walk fid newfid names) h k = Reads-bind _ _ (Reads-u32 fid h.0) (
    Reads-bind _ _ (Reads-u32 newfid h.1)
      (Reads-last _ _ (Reads-names names k.0 k.1 h.2) (Reads-pure _)))
Reads-request_wire (lopen fid flags) h k =
    Reads-bind _ _ (Reads-u32 fid h.0) (Reads-last _ _ (Reads-u32 flags h.1) (Reads-pure _))
Reads-request_wire (lcreate fid name flags mode gid) h k = Reads-bind _ _ (Reads-u32 fid h.0) (
    Reads-bind _ _ (Reads-string name k h.1) (
      Reads-bind _ _ (Reads-u32 flags h.2)
        (Reads-bind _ _ (Reads-u32 mode h.3) (Reads-last _ _ (Reads-u32 gid h.4) (Reads-pure _)))))
Reads-request_wire (get_attr fid request_mask) h k =
    Reads-bind _ _ (Reads-u32 fid h.0) (Reads-last _ _ (Reads-u64 request_mask h.1) (Reads-pure _))
Reads-request_wire (set_attr fid attr) h k =
    Reads-bind _ _ (Reads-u32 fid h.0) (Reads-last _ _ (Reads-setattr attr h.1) (Reads-pure _))
Reads-request_wire (xattr_walk fid newfid name) h k = Reads-bind _ _ (Reads-u32 fid h.0) (
    Reads-bind _ _ (Reads-u32 newfid h.1) (Reads-last _ _ (Reads-string name k h.2) (Reads-pure _)))
Reads-request_wire (xattr_create fid name size flags) h k = Reads-bind _ _ (Reads-u32 fid h.0) (
    Reads-bind _ _ (Reads-string name k h.1)
      (Reads-bind _ _ (Reads-u64 size h.2) (Reads-last _ _ (Reads-u32 flags h.3) (Reads-pure _))))
Reads-request_wire (read fid offset count) h k =
    Reads-bind _ _ (Reads-u32 fid h.0)
      (Reads-bind _ _ (Reads-u64 offset h.1) (Reads-last _ _ (Reads-u32 count h.2) (Reads-pure _)))
Reads-request_wire (write fid offset content) h k = Reads-bind _ _ (Reads-u32 fid h.0) (
    Reads-bind _ _ (Reads-u64 offset h.1)
      (Reads-last _ _ (Reads-counted_data content k) (Reads-pure _)))
Reads-request_wire (clunk fid) h k = Reads-last _ _ (Reads-u32 fid h) (Reads-pure _)
Reads-request_wire (remove fid) h k = Reads-last _ _ (Reads-u32 fid h) (Reads-pure _)
Reads-request_wire (mkdir fid name mode gid) h k = Reads-bind _ _ (Reads-u32 fid h.0) (
    Reads-bind _ _ (Reads-string name k h.1)
      (Reads-bind _ _ (Reads-u32 mode h.2) (Reads-last _ _ (Reads-u32 gid h.3) (Reads-pure _))))
Reads-request_wire (link fid newdirfid name) h k = Reads-bind _ _ (Reads-u32 fid h.0) (
    Reads-bind _ _ (Reads-u32 newdirfid h.1)
      (Reads-last _ _ (Reads-string name k h.2) (Reads-pure _)))
Reads-request_wire (readdir fid offset count) h k =
    Reads-bind _ _ (Reads-u32 fid h.0)
      (Reads-bind _ _ (Reads-u64 offset h.1) (Reads-last _ _ (Reads-u32 count h.2) (Reads-pure _)))
Reads-request_wire (rename_at olddirfid oldname newdirfid newname) h k =
    Reads-bind _ _ (Reads-u32 olddirfid h.0) (
      Reads-bind _ _ (Reads-string oldname k.0 h.1) (
        Reads-bind _ _ (Reads-u32 newdirfid h.2)
          (Reads-last _ _ (Reads-string newname k.1 h.3) (Reads-pure _))))
Reads-request_wire (unlink_at dirfid name flags) h k =
    Reads-bind _ _ (Reads-u32 dirfid h.0) (
      Reads-bind _ _ (Reads-string name k h.1)
        (Reads-last _ _ (Reads-u32 flags h.2) (Reads-pure _)))
Reads-request_wire (symlink fid name target gid) h k = Reads-bind _ _ (Reads-u32 fid h.0) (
    Reads-bind _ _ (Reads-string name k.0 h.1) (
      Reads-bind _ _ (Reads-string target k.1 h.2)
        (Reads-last _ _ (Reads-u32 gid h.3) (Reads-pure _))))
Reads-request_wire (readlink fid) h k = Reads-last _ _ (Reads-u32 fid h) (Reads-pure _)
Reads-request_wire (fsync fid) h k = Reads-last _ _ (Reads-u32 fid h) (Reads-pure _)
Reads-request_wire (flush oldtag) h k = Reads-last _ _ (Reads-u16 oldtag h) (Reads-pure _)

finish_request-At :
    (tag : ℕ) (m : NinePRequest) (d : Decoder) → At d [] → finish_request tag m d ≡ ok ((tag, m), d)
unfolding finish_request ◌>>=◌ pure
finish_request-At tag m d a = rw (finish-At d a, finish_request, ◌>>=◌) refl

decode_request-wire :
    (tag : ℕ) (m : NinePRequest)
    → IsU16 tag
    → IsTyped m
    → Fits m
    → 7 + length (request_wire m) ≤ u32_max
    → decode_request (wire_frame (request_type m) tag (request_wire m)) ≡ ok (tag, m)
unfolding decode_request
decode_request-wire tag m ht h k small =
    rw (decode_frame-wire (request_type m) tag (request_wire m) ht small, decode_request)
      (rw
        (Reads-finish (decode_request_body (request_type m)) (finish_request tag) (request_wire m)
          (Reads-request_wire m h k) (omega arith) (finish_request-At tag m))
        refl)

encode_request-Fits :
    (tag : ℕ) (m : NinePRequest)
    → Fits m
    → encode_request tag m ≡ encode_frame (request_type m) tag (request_wire m)
unfolding encode_request
encode_request-Fits tag m k = rw (request_body-Fits m k) refl

Fits-encode_request :
    (tag : ℕ) (m : NinePRequest) {frame : Bytes} → encode_request tag m ≡ ok frame → Fits m
unfolding encode_request
Fits-encode_request tag m e = Fits-request_body m (>>=-eq_ok _ _ e).1

-- What `encode_request` writes, for a tag and a request whose fields are values of their machine types,
-- `decode_request` reads back as that tag and that request.
pub decode_request-encode_request :
    (tag : ℕ) (m : NinePRequest) {frame : Bytes}
    → IsU16 tag
    → IsTyped m
    → encode_request tag m ≡ ok frame
    → decode_request frame ≡ ok (tag, m)
decode_request-encode_request tag m ht h e =
    let k : Fits m = Fits-encode_request tag m e in
    let e' = rw (encode_request-Fits tag m k) at e in
    let small = small-encode_frame (request_type m) tag (request_wire m) e' in
    let same = encode_frame_small (request_type m) tag (request_wire m) small in
    ok-injective (sym same ∙ e') (λ f. decode_request f ≡ ok (tag, m))
      (decode_request-wire tag m ht h k small)

-- `encode_request` returns a frame exactly when each string, list and data fits its count field and the
-- frame's size fits four bytes; that frame is then the size, the type, the tag and the wire form.
pub encode_request_iff :
    (tag : ℕ) (m : NinePRequest) (frame : Bytes)
    → (encode_request tag m ≡ ok frame) ↔ (
        Fits m
        × (7 + length (request_wire m) ≤ u32_max)
        × (frame ≡ wire_frame (request_type m) tag (request_wire m)))
encode_request_iff tag m frame =
    (to, λ h. encode_request-Fits tag m h.0 ∙ encode_frame_small _ tag _ h.1 ∙ ap ok (sym h.2))
  where
    to :
        encode_request tag m ≡ ok frame
        → Fits m
          × (7 + length (request_wire m) ≤ u32_max)
          × (frame ≡ wire_frame (request_type m) tag (request_wire m))
    to e =
        let k : Fits m = Fits-encode_request tag m e in
        let e' = rw (encode_request-Fits tag m k) at e in
        let small = small-encode_frame (request_type m) tag (request_wire m) e' in
        let same = encode_frame_small (request_type m) tag (request_wire m) small in
        (k, small, cc (same, e'))
