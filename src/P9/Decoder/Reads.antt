-- ===== src/P9/Decoder/Reads.antt =====
-- What the methods of `Decoder` read: `Reads m xs a` says that `m`, before the bytes `xs`, returns
-- `a` and stands behind them, whatever follows.
use star.Base.{
  ℕ, zero, suc, ◌+◌, ◌^◌, ◌≤◌, ◌<◌, ◌≡◌, refl, sym, ap, subst, ◌∙◌, true, false, [], ◌∷◌, ◌++◌,
  append-nil, append_assoc, Bytes, length, drop, length-append, length-drop, take-append,
  drop-append, arith, ltb, le→leb,
}
use star.Core.Error.{Result, ok}
use star.P9.Wire.{usize_max, u16_max, u32_max, le_bytes, from_le}
use star.P9.Decoder.{
  Decoder, Decode, ◌>>=◌, pure, lift, is_empty, finish, first, read_bytes, read_le, read_u8,
  read_u16, read_u32, read_u64, read_string, read_counted_data,
}
use star.P9.Wire.Numbers.{length-le_bytes, from_le-le_bytes}
use star.P9.Wire.Utf8.{is_utf8, from_utf8}

abbrev pub skip : ℕ → Decoder → Decoder
skip n d = record d { offset = d.offset + n }

pub record At (d : Decoder) (xs : Bytes) : Type 0 where
  pub inside : d.offset ≤ length d.bytes
  pub small : length d.bytes ≤ usize_max
  pub left : drop d.offset d.bytes ≡ xs

pub drop-drop : (n k : ℕ) (xs : Bytes) → drop k (drop n xs) ≡ drop (n + k) xs
drop-drop zero k xs = let e : zero + k ≡ k = omega arith in rw e refl
drop-drop (suc n) zero [] = let e : suc n + zero ≡ suc n = omega arith in rw e refl
drop-drop (suc n) (suc k) [] = let e : suc n + suc k ≡ suc (n + suc k) = omega arith in rw e refl
drop-drop (suc n) k (x ∷ xs) =
    let e : suc n + k ≡ suc (n + k) = omega arith in rw e (drop-drop n k xs)

module _ {d : Decoder} (xs rest : Bytes) (a : At d (xs ++ rest)) where
  At_room : d.offset + length xs ≤ length d.bytes
  At_room = omega (arith, length-drop d.offset d.bytes, ap length a.left, length-append xs rest)

  pub At-skip : At (skip (length xs) d) rest
  At-skip = record {
    inside = At_room;
    small = a.small;
    left =
        sym (drop-drop d.offset (length xs) d.bytes)
        ∙ ap (drop (length xs)) a.left
        ∙ drop-append xs rest;
  }

pub record Reads {ℓ} {A : Type ℓ} (m : Decode A) (xs : Bytes) (a : A) : Type ℓ where
  pub run : (d : Decoder) (rest : Bytes) → At d (xs ++ rest) → m d ≡ ok (a, skip (length xs) d)

module _ {ℓ} {A : Type ℓ} where
  -- The end of a chain: nothing more is read.
  pub Reads-pure : (a : A) → Reads (pure a) [] a
  unfolding pure
  Reads-pure a = record {
    run = λ d rest h. let e : d.offset + 0 ≡ d.offset = omega arith in rw e refl;
  }

  pub Reads-lift : (r : Result A) (a : A) → r ≡ ok a → Reads (lift r) [] a
  unfolding lift pure
  Reads-lift r a e = rw e (Reads-pure a)

module _ {ℓ κ} {A : Type ℓ} {B : Type κ} (m : Decode A) (f : A → Decode B) where
  bind_ok : {d d' : Decoder} {a : A} → m d ≡ ok (a, d') → (m >>= f) d ≡ f a d'
  unfolding ◌>>=◌
  bind_ok e = rw (e, ◌>>=◌)

  pub Reads-bind :
      {xs ys : Bytes} {a : A} {b : B}
      → Reads m xs a
      → Reads (f a) ys b
      → Reads (m >>= f) (xs ++ ys) b
  Reads-bind {xs} {ys} {a} {b} r s = record {
    run = λ d rest h.
        let h' : At d (xs ++ (ys ++ rest)) = subst (At d) (append_assoc xs ys rest) h in
        let e : d.offset + length xs + length ys ≡ d.offset + length (xs ++ ys) =
          omega (arith, length-append xs ys) in
        bind_ok (r.run d (ys ++ rest) h')
        ∙ s.run (skip (length xs) d) rest (At-skip xs (ys ++ rest) h')
        ∙ ap (λ (o : ℕ). ok (b, record d { offset = o })) e;
  }

-- The last field of a message.
pub Reads-last {ℓ κ} :
    {A : Type ℓ} {B : Type κ} (m : Decode A) (f : A → Decode B) {xs : Bytes} {a : A} {b : B}
    → Reads m xs a
    → Reads (f a) [] b
    → Reads (m >>= f) xs b
Reads-last m f {xs} {a} {b} r s =
    subst (λ l. Reads (m >>= f) l b) (append-nil xs) (Reads-bind m f r s)

fits :
    (xs : Bytes) (d : Decoder) (rest : Bytes)
    → At d (xs ++ rest)
    → ltb usize_max (d.offset + length xs) ≡ false
fits xs d rest h = ground (arith, At_room xs rest h, h.small)

pub Reads-bytes : (xs : Bytes) → Reads (read_bytes (length xs)) xs xs
unfolding read_bytes
Reads-bytes xs = record {
  run = λ d rest h.
      rw (fits xs d rest h, le→leb _ _ (At_room xs rest h), h.left, take-append xs rest) refl;
}

pub Reads-le : (n v : ℕ) → v < 256 ^ n → Reads (read_le n) (le_bytes n v) v
unfolding read_le
Reads-le n v h =
    let bs : Bytes = le_bytes n v in
    let read : Reads (read_le (length bs)) bs (from_le bs) =
      Reads-last _ _ (Reads-bytes bs) (Reads-pure (from_le bs)) in
    subst (λ k. Reads (read_le k) bs v) (length-le_bytes n v)
      (subst (Reads (read_le (length bs)) bs) (from_le-le_bytes n v h) read)

pub Reads-u8 : (v : ℕ) → Reads read_u8 (v ∷ []) v
unfolding read_u8 first
Reads-u8 v = Reads-last _ _ (Reads-bytes (v ∷ [])) (Reads-pure v)

pub Reads-u16 : (v : ℕ) → v < 2 ^ 16 → Reads read_u16 (le_bytes 2 v) v
unfolding read_u16
Reads-u16 v h = Reads-le 2 v h

pub Reads-u32 : (v : ℕ) → v < 2 ^ 32 → Reads read_u32 (le_bytes 4 v) v
unfolding read_u32
Reads-u32 v h = Reads-le 4 v h

pub Reads-u64 : (v : ℕ) → v < 2 ^ 64 → Reads read_u64 (le_bytes 8 v) v
unfolding read_u64
Reads-u64 v h = Reads-le 8 v h

pub Reads-string :
    (s : Bytes)
    → length s ≤ u16_max
    → is_utf8 s ≡ true
    → Reads read_string (le_bytes 2 (length s) ++ s) s
unfolding read_string from_utf8
Reads-string s h u =
    Reads-bind _ _ (Reads-u16 (length s) (omega arith))
      (Reads-last _ _ (Reads-bytes s) (Reads-lift (from_utf8 s) s (rw u)))

pub Reads-counted_data :
    (s : Bytes) → length s ≤ u32_max → Reads read_counted_data (le_bytes 4 (length s) ++ s) s
unfolding read_counted_data
Reads-counted_data s h = Reads-bind _ _ (Reads-u32 (length s) (omega arith)) (Reads-bytes s)

-- Behind the last byte `finish` accepts, and only there.
pub finish-At : (d : Decoder) → At d [] → finish d ≡ ok (tt, d)
unfolding finish is_empty
finish-At d h = ground (arith, ap length h.left, length-drop d.offset d.bytes, h.inside)
