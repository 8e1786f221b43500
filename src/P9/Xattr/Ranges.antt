-- ===== src/P9/Xattr/Ranges.antt =====
-- The ranges that `record_write` keeps: sorted, apart, and together what was written.
use star.Base.{
  ℕ, ◌≤◌, ◌<◌, min, max, ◌≡◌, refl, sym, ◌∙◌, Bool, true, false, ◌&&◌, ◌||◌, List, [], ◌∷◌, ◌++◌,
  ltb, leb, if◌then◌else◌, arith, append-nil, append_assoc, Bool-cases, inl, inr, ltb→lt,
}
use star.P9.Xattr.{Range, merge_loop, record_write}

-- All that is in `rs` begins behind `e`.
abbrev pub Behind : ℕ → List Range → Type 0
Behind e [] = Unit
Behind e (r ∷ rs) = e < r.start

-- No range is empty, and between two of them lies a byte.
abbrev pub IsNormal : List Range → Type 0
IsNormal [] = Unit
IsNormal (r ∷ rs) = (r.start < r.end) × Behind r.end rs × IsNormal rs

abbrev pub within : ℕ → ℕ → ℕ → Bool
within x start end = leb start x && ltb x end

unfoldable pub covers : ℕ → List Range → Bool
covers x [] = false
covers x (r ∷ rs) = within x r.start r.end || covers x rs

-- What the loop computes, with no accumulator.
merge : List Range → ℕ → ℕ → List Range
merge [] start end = record { start = start; end = end } ∷ []
merge (r ∷ rs) start end =
    let before = merge rs start end in
    let joined = merge rs (min start r.start) (max end r.end) in
    if ltb r.end start
    then r ∷ before
    else if ltb end r.start
    then record { start = start; end = end } ∷ r ∷ rs
    else joined

Behind-le : {a b : ℕ} (rs : List Range) → a ≤ b → Behind b rs → Behind a rs
Behind-le [] h k = tt
Behind-le (r ∷ rs) h k = omega arith

-- Behind an inserted range the loop only copies.
merge_loop_copy :
    (rs : List Range) (start end : ℕ) (merged : List Range)
    → start ≤ end
    → Behind end rs
    → IsNormal rs
    → merge_loop rs start end merged true ≡ merged ++ rs
unfolding merge_loop
merge_loop_copy [] start end merged le b n = sym (append-nil merged)
merge_loop_copy (r ∷ rs) start end merged le b n =
    let later : Behind end rs = Behind-le rs (omega arith) n.1 in
    ground (
      arith,
      n.0,
      append_assoc merged (r ∷ []) rs,
      merge_loop_copy rs start end (merged ++ r ∷ []) le later n.2,
    )

merge_loop-merge :
    (rs : List Range) (start end : ℕ) (merged : List Range)
    → start ≤ end
    → IsNormal rs
    → merge_loop rs start end merged false ≡ merged ++ merge rs start end
unfolding merge_loop merge
merge_loop-merge [] start end merged le n = refl
merge_loop-merge (r ∷ rs) start end merged le n = elim (Bool-cases (ltb r.end start)) [
  | inl a ↦
      rw (a)
        (merge_loop-merge rs start end (merged ++ r ∷ []) le n.2 ∙ append_assoc merged (r ∷ []) _)
  | inr a ↦ elim (Bool-cases (ltb end r.start)) [
    | inl b ↦
        rw (a, b)
          (merge_loop_copy rs start end _ le (Behind-le rs (omega (arith, ltb→lt _ _ b, n.0)) n.1)
              n.2
            ∙ append_assoc (merged ++ record { start = start; end = end } ∷ []) (r ∷ []) rs
            ∙ append_assoc merged (record { start = start; end = end } ∷ []) (r ∷ rs))
    | inr b ↦
        rw (a, b) (merge_loop-merge rs (min start r.start) (max end r.end) merged (omega arith) n.2)
  ]
]

-- A new range behind `e` keeps everything behind `e`.
Behind-merge :
    (e : ℕ) (rs : List Range) (start end : ℕ)
    → e < start
    → Behind e rs
    → IsNormal rs
    → Behind e (merge rs start end)
unfolding merge
Behind-merge e [] start end h b n = h
Behind-merge e (r ∷ rs) start end h b n = ground (
  arith,
  n.0,
  Behind-merge e rs (min start r.start) (max end r.end) (omega arith)
      (Behind-le rs (omega arith) n.1) n.2,
)

merge-IsNormal :
    (rs : List Range) (start end : ℕ) → start < end → IsNormal rs → IsNormal (merge rs start end)
unfolding merge
merge-IsNormal [] start end h n = (h, tt, tt)
merge-IsNormal (r ∷ rs) start end h n = elim (Bool-cases (ltb r.end start)) [
  | inl a ↦ rw a (
    n.0,
    Behind-merge r.end rs start end (ltb→lt _ _ a) n.1 n.2,
    merge-IsNormal rs start end h n.2,
  )
  | inr a ↦ elim (Bool-cases (ltb end r.start)) [
    | inl b ↦ rw (a, b) (h, ltb→lt _ _ b, n)
    | inr b ↦ rw (a, b) (merge-IsNormal rs (min start r.start) (max end r.end) (omega arith) n.2)
  ]
]

or_swap : (a b c : Bool) → (a || (b || c)) ≡ (b || (a || c))
or_swap a b c = ground arith

or_assoc : (a b c : Bool) → ((a || b) || c) ≡ (a || (b || c))
or_assoc a b c = ground arith

-- Two ranges that touch join to one.
within_join :
    (x a b c d : ℕ)
    → a < b
    → c < d
    → a ≤ d
    → c ≤ b
    → within x (min a c) (max b d) ≡ (within x a b || within x c d)
within_join x a b c d h k l m = ground arith

covers-merge :
    (x : ℕ) (rs : List Range) (start end : ℕ)
    → start < end
    → IsNormal rs
    → covers x (merge rs start end) ≡ (within x start end || covers x rs)
unfolding merge covers
covers-merge x [] start end h n = refl
covers-merge x (r ∷ rs) start end h n = elim (Bool-cases (ltb r.end start)) [
  | inl a ↦
      rw (a, covers-merge x rs start end h n.2)
        (or_swap (within x r.start r.end) (within x start end) (covers x rs))
  | inr a ↦ elim (Bool-cases (ltb end r.start)) [
    | inl b ↦ rw (a, b) refl
    | inr b ↦
        rw
          (
            a,
            b,
            covers-merge x rs (min start r.start) (max end r.end) (omega arith) n.2,
            within_join x start end r.start r.end h n.0 (ground (arith, a)) (ground (arith, b)),
          )
          (or_assoc (within x start end) (within x r.start r.end) (covers x rs))
  ]
]

record_write-merge :
    (written : List Range) (start end : ℕ)
    → start < end
    → IsNormal written
    → record_write written start end ≡ merge written start end
unfolding record_write
record_write-merge written start end h n =
    rw (not_empty) (merge_loop-merge written start end [] (omega arith) n)
  where
    not_empty : leb end start ≡ false
    not_empty = ground arith

-- `record_write` keeps ranges that are sorted, apart and not empty in that form.
pub record_write-IsNormal :
    (written : List Range) (start end : ℕ)
    → IsNormal written
    → IsNormal (record_write written start end)
record_write-IsNormal written start end n = elim (Bool-cases (leb end start)) [
  | inl e ↦ unfold record_write in rw e n
  | inr e ↦
      rw (record_write-merge written start end (ground arith) n)
        (merge-IsNormal written start end (ground arith) n)
]

abbrev pub Bounded : ℕ → List Range → Type 0
Bounded size [] = Unit
Bounded size (r ∷ rs) = (r.end ≤ size) × Bounded size rs

merge-Bounded :
    (size : ℕ) (rs : List Range) (start end : ℕ)
    → end ≤ size
    → Bounded size rs
    → Bounded size (merge rs start end)
unfolding merge
merge-Bounded size [] start end h b = (h, tt)
merge-Bounded size (r ∷ rs) start end h b = ground (
  arith,
  merge-Bounded size rs start end h b.1,
  merge-Bounded size rs (min start r.start) (max end r.end) (omega arith) b.1,
)

pub record_write-Bounded :
    (size : ℕ) (written : List Range) (start end : ℕ)
    → end ≤ size
    → IsNormal written
    → Bounded size written
    → Bounded size (record_write written start end)
record_write-Bounded size written start end h n b = elim (Bool-cases (leb end start)) [
  | inl e ↦ unfold record_write in rw e b
  | inr e ↦
      rw (record_write-merge written start end (ground arith) n)
        (merge-Bounded size written start end h b)
]

-- After `record_write` on ranges that are sorted, apart and not empty, a byte counts as written
-- exactly if it did before or lies in the new range.
pub covers-record_write :
    (x : ℕ) (written : List Range) (start end : ℕ)
    → IsNormal written
    → covers x (record_write written start end) ≡ (within x start end || covers x written)
covers-record_write x written start end n = elim (Bool-cases (leb end start)) [
  | inl e ↦ unfold record_write in rw e (ground arith)
  | inr e ↦
      rw (record_write-merge written start end (ground arith) n)
        (covers-merge x written start end (ground arith) n)
]
