-- ===== src/P9/Xattr/Complete.antt =====
-- `is_complete` says that every byte of the attribute was written, whatever the order of the writes.
use star.Base.{
  ℕ, zero, suc, ◌+◌, ◌-◌, ◌≤◌, ◌<◌, ◌≡◌, refl, ap, subst, ◌∙◌, ◌↔◌, true, false, ◌||◌, List, [],
  ◌∷◌, ◌++◌, Bytes, length, length-append, length-drop, length-take_le, take, drop, arith,
  Bool-cases, inl, inr, ◌==◌,
}
use star.Core.Error.{ok}
use star.P9.Xattr.{
  Range, XattrWriteState, zeros, new, record_write, is_whole, is_complete, write_at,
}
use star.P9.Xattr.Ranges.{
  Behind, IsNormal, Bounded, within, covers, record_write-IsNormal, record_write-Bounded,
  covers-record_write,
}

-- What holds of the state from `new` on.
pub record IsSound (w : XattrWriteState) : Type 0 where
  pub size : length w.content ≡ w.expected_size
  pub normal : IsNormal w.written
  pub bounded : Bounded w.expected_size w.written

length-zeros : (n : ℕ) → length (zeros n) ≡ n
unfolding zeros
length-zeros zero = refl
length-zeros (suc n) = ap suc (length-zeros n)

pub new-IsSound : (name : Bytes) (flags size : ℕ) → IsSound (new name flags size)
unfolding new
new-IsSound name flags size = record { size = length-zeros size; normal = tt; bounded = tt }

length-overwrite :
    (offset : ℕ) (chunk content : Bytes)
    → offset + length chunk ≤ length content
    → length (take offset content ++ (chunk ++ drop (offset + length chunk) content))
      ≡ length content
length-overwrite offset chunk content h = omega (
  arith,
  length-append (take offset content) (chunk ++ drop (offset + length chunk) content),
  length-append chunk (drop (offset + length chunk) content),
  length-take_le offset content (omega arith),
  length-drop (offset + length chunk) content,
)

abbrev after : XattrWriteState → ℕ → Bytes → XattrWriteState
after w offset chunk =
    let end = offset + length chunk in
    record w {
      content = take offset w.content ++ (chunk ++ drop end w.content);
      written = record_write w.written offset end;
    }

pub write_at-eq_ok :
    (w : XattrWriteState) (offset : ℕ) (chunk : Bytes) {p : ℕ × XattrWriteState}
    → write_at w offset chunk ≡ ok p
    → (offset + length chunk ≤ w.expected_size) × ((length chunk, after w offset chunk) ≡ p)
unfolding write_at
write_at-eq_ok w offset chunk e = ground arith

after-IsSound :
    (w : XattrWriteState) (offset : ℕ) (chunk : Bytes)
    → IsSound w
    → offset + length chunk ≤ w.expected_size
    → IsSound (after w offset chunk)
after-IsSound w offset chunk s h = record {
  size = length-overwrite offset chunk w.content (omega (arith, s.size)) ∙ s.size;
  normal = record_write-IsNormal w.written offset (offset + length chunk) s.normal;
  bounded =
      record_write-Bounded w.expected_size w.written offset (offset + length chunk) h s.normal
        s.bounded;
}

-- What an accepted write of `chunk` at `offset` does to `w`: a sound state, the length of the chunk,
-- a place within the attribute, and exactly the bytes of the chunk marked as written beside the old.
abbrev pub Wrote : XattrWriteState → ℕ → Bytes → ℕ × XattrWriteState → Type 0
Wrote w offset chunk (n, w') =
    IsSound w'
    × (n ≡ length chunk)
    × (offset + n ≤ w.expected_size)
    × (w'.expected_size ≡ w.expected_size)
    × ((x : ℕ)
        → covers x w'.written ≡ (within x offset (offset + length chunk) || covers x w.written))

-- A write that a sound state accepts keeps the state sound, lies within the attribute, returns the
-- length of the chunk, and marks exactly the chunk's bytes as written, beside those that were.
pub write_at-Wrote :
    (w : XattrWriteState) (offset : ℕ) (chunk : Bytes) {p : ℕ × XattrWriteState}
    → IsSound w
    → write_at w offset chunk ≡ ok p
    → Wrote w offset chunk p
write_at-Wrote w offset chunk s e =
    let (h, q) = write_at-eq_ok w offset chunk e in
    subst (Wrote w offset chunk) q (
      after-IsSound w offset chunk s h,
      refl,
      h,
      refl,
      λ x. covers-record_write x w.written offset (offset + length chunk) s.normal,
    )

Behind-uncovered :
    (x e : ℕ) (rs : List Range) → x ≤ e → Behind e rs → IsNormal rs → covers x rs ≡ false
unfolding covers
Behind-uncovered x e [] h b n = refl
Behind-uncovered x e (r ∷ rs) h b n =
    ground (arith, n.0, Behind-uncovered x r.end rs (omega (arith, n.0)) n.1 n.2)

whole_covers :
    (size : ℕ) (rs : List Range) (x : ℕ) → is_whole size rs ≡ true → x < size → covers x rs ≡ true
unfolding is_whole covers
whole_covers size [] x e h = cc
whole_covers size (r ∷ []) x e h = ground arith
whole_covers size (r ∷ q ∷ rs) x e h = cc

covers_whole :
    (size : ℕ) (rs : List Range)
    → 0 < size
    → IsNormal rs
    → Bounded size rs
    → ((x : ℕ) → x < size → covers x rs ≡ true)
    → is_whole size rs ≡ true
unfolding is_whole covers
covers_whole size [] h n b all = absurd (cc (all 0 h))
covers_whole size (r ∷ []) h n b all =
    ground (arith, all 0 h, all (size - 1) (omega arith), b.0, n.0)
covers_whole size (r ∷ q ∷ rs) h n b all = absurd (
    ground (
      arith,
      n.0,
      n.1,
      n.2.0,
      b.1.0,
      all r.end (omega (arith, n.2.0, b.1.0)),
      Behind-uncovered r.end q.end rs (omega (arith, n.1, n.2.0)) n.2.1 n.2.2,
    ))

-- A sound state counts as complete exactly when every byte of the attribute was written.
pub is_complete_iff :
    (w : XattrWriteState)
    → IsSound w
    → (is_complete w ≡ true) ↔ ((x : ℕ) → x < w.expected_size → covers x w.written ≡ true)
unfolding is_complete
is_complete_iff w s = (to, from)
  where
    to : is_complete w ≡ true → (x : ℕ) → x < w.expected_size → covers x w.written ≡ true
    to e x h = whole_covers w.expected_size w.written x (ground arith) h

    from : ((x : ℕ) → x < w.expected_size → covers x w.written ≡ true) → is_complete w ≡ true
    from all = elim (Bool-cases (w.expected_size == 0)) [
      | inl z ↦ rw z refl
      | inr z ↦
          rw (z, covers_whole w.expected_size w.written (ground arith) s.normal s.bounded all) refl
    ]
