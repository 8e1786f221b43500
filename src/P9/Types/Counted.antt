-- ===== src/P9/Types/Counted.antt =====
-- Strings, data and lists behind their lengths: what the encoders write, when they refuse, and that
-- the decoders read it back.
use star.Base.{
  ◌≤◌, ◌≡◌, ap, ◌∙◌, List, [], ◌∷◌, ◌++◌, append_assoc, Bytes, All, length, arith, leb, le→leb, inl,
  inr, Bool-cases, leb→le, append-nil,
}
use star.Core.Error.{ok, >>=-eq_ok}
use star.P9.Wire.{
  le_bytes, put_u16, put_u32, put_string, put_counted_data, try_into, u16_max, u32_max,
}
use star.P9.Decoder.{Decode, read_string}
use star.P9.Decoder.Reads.{Reads, Reads-pure, Reads-bind, Reads-last, Reads-u16, Reads-string}
use star.P9.Types.{
  Qid, put_each_string, put_names, put_each_qid, put_qids, read_times, read_names, read_qids,
  read_qid,
}
use star.P9.Types.Reads.{IsText, IsQid, wire_qid, encode_qid-wire, Reads-qid}

abbrev pub wire_string : Bytes → Bytes
wire_string s = le_bytes 2 (length s) ++ s

abbrev pub wire_data : Bytes → Bytes
wire_data s = le_bytes 4 (length s) ++ s

abbrev pub wire_each {ℓ} : {A : Type ℓ} → (A → Bytes) → List A → Bytes
wire_each f [] = []
wire_each f (a ∷ l) = f a ++ wire_each f l

abbrev pub wire_names : List Bytes → Bytes
wire_names names = le_bytes 2 (length names) ++ wire_each wire_string names

abbrev pub wire_qids : List Qid → Bytes
wire_qids qids = le_bytes 2 (length qids) ++ wire_each wire_qid qids

-- The lengths that the two count fields can hold.
abbrev pub Fits16 {ℓ} : {A : Type ℓ} → List A → Type 0
Fits16 l = length l ≤ u16_max

abbrev pub Fits32 : Bytes → Type 0
Fits32 s = length s ≤ u32_max

pub put_string-Fits : (out s : Bytes) → Fits16 s → put_string out s ≡ ok (out ++ wire_string s)
unfolding put_string put_u16 try_into
put_string-Fits out s h = rw (le→leb _ _ h) (ap ok (append_assoc out _ s))

pub put_counted_data-Fits :
    (out s : Bytes) → Fits32 s → put_counted_data out s ≡ ok (out ++ wire_data s)
unfolding put_counted_data put_u32 try_into
put_counted_data-Fits out s h = rw (le→leb _ _ h) (ap ok (append_assoc out _ s))

pub Fits-put_string : (out s : Bytes) {b : Bytes} → put_string out s ≡ ok b → Fits16 s
unfolding put_string try_into
Fits-put_string out s h = ground arith

pub Fits-put_counted_data : (out s : Bytes) {b : Bytes} → put_counted_data out s ≡ ok b → Fits32 s
unfolding put_counted_data try_into
Fits-put_counted_data out s h = ground arith

put_each_string-Fits :
    (out : Bytes) (names : List Bytes)
    → All Fits16 names
    → put_each_string out names ≡ ok (out ++ wire_each wire_string names)
unfolding put_each_string
put_each_string-Fits out [] h = rw append-nil
put_each_string-Fits out (s ∷ names) h =
    rw (put_string-Fits out s h.0)
      (put_each_string-Fits (out ++ wire_string s) names h.1 ∙ ap ok (append_assoc out _ _))

Fits-put_each_string :
    (out : Bytes) (names : List Bytes) {b : Bytes}
    → put_each_string out names ≡ ok b
    → All Fits16 names
unfolding put_each_string
Fits-put_each_string out [] h = tt
Fits-put_each_string out (s ∷ names) h =
    let (out', e, k) = >>=-eq_ok (put_string out s) (λ o. put_each_string o names) h in
    (Fits-put_string out s e, Fits-put_each_string out' names k)

pub Fits-put_names :
    (out : Bytes) (names : List Bytes) {b : Bytes}
    → put_names out names ≡ ok b
    → Fits16 names × All Fits16 names
unfolding put_names try_into
Fits-put_names out names h = elim (Bool-cases (leb (length names) u16_max)) [
  | inl e ↦ (leb→le _ _ e, Fits-put_each_string (put_u16 out (length names)) names (rw (e) at h))
  | inr e ↦ absurd (cc (rw e at h))
]

pub put_names-Fits :
    (out : Bytes) (names : List Bytes)
    → Fits16 names
    → All Fits16 names
    → put_names out names ≡ ok (out ++ wire_names names)
unfolding put_names put_u16 try_into
put_names-Fits out names n h =
    rw (le→leb _ _ n) (put_each_string-Fits _ names h ∙ ap ok (append_assoc out _ _))

put_each_qid-wire :
    (out : Bytes) (qids : List Qid) → put_each_qid out qids ≡ out ++ wire_each wire_qid qids
unfolding put_each_qid
put_each_qid-wire out [] = rw append-nil
put_each_qid-wire out (q ∷ qids) =
    rw encode_qid-wire (put_each_qid-wire (out ++ wire_qid q) qids ∙ append_assoc out _ _)

pub put_qids-Fits :
    (out : Bytes) (qids : List Qid) → Fits16 qids → put_qids out qids ≡ ok (out ++ wire_qids qids)
unfolding put_qids put_u16 try_into
put_qids-Fits out qids h =
    rw (le→leb _ _ h) (ap ok (put_each_qid-wire _ qids ∙ append_assoc out _ _))

pub Fits-put_qids :
    (out : Bytes) (qids : List Qid) {b : Bytes} → put_qids out qids ≡ ok b → Fits16 qids
unfolding put_qids try_into
Fits-put_qids out qids h = ground arith

pub Reads-times {ℓ κ} :
    {A : Type ℓ} (P : A → Type κ) (m : Decode A) (wire : A → Bytes)
    → ((a : A) → P a → Reads m (wire a) a)
    → (l : List A) → All P l
    → Reads (read_times (length l) m) (wire_each wire l) l
unfolding read_times
Reads-times P m wire one [] h = Reads-pure []
Reads-times P m wire one (a ∷ l) h =
    Reads-bind _ _ (one a h.0)
      (Reads-last _ _ (Reads-times P m wire one l h.1) (Reads-pure (a ∷ l)))

abbrev IsString : Bytes → Type 0
IsString s = Fits16 s × IsText s

strings : (l : List Bytes) → All Fits16 l → All IsText l → All IsString l
strings [] h k = tt
strings (s ∷ l) h k = ((h.0, k.0), strings l h.1 k.1)

pub Reads-names :
    (names : List Bytes)
    → Fits16 names
    → All Fits16 names
    → All IsText names
    → Reads read_names (wire_names names) names
unfolding read_names
Reads-names names n h k = Reads-bind _ _ (Reads-u16 _ (omega arith)) (
    Reads-times IsString read_string wire_string (λ s p. Reads-string s p.0 p.1) names
      (strings names h k))

pub Reads-qids :
    (qids : List Qid) → Fits16 qids → All IsQid qids → Reads read_qids (wire_qids qids) qids
unfolding read_qids
Reads-qids qids n h =
    Reads-bind _ _ (Reads-u16 _ (omega arith))
      (Reads-times IsQid read_qid wire_qid Reads-qid qids h)
