-- ===== src/Core/Path/Child.antt =====
-- Paths of several segments below a directory.
use star.Base.{
  ◌≡◌, ◌≢◌, refl, subst, true, List, [], ◌∷◌, ◌++◌, Bytes, All, ◌==◌, Bool-cases, inl, inr,
}
use star.Core.Path.{slash, dot, split, valid_path}
use star.Core.Path.Segments.{join-split, split-ne-nil}
use star.Core.Path.Clean.{IsSegment, valid_path-join, valid_path-split}
use star.Core.Path.Parts.{cons_head-append}

split_below : (a b : Bytes) → split (a ++ slash ∷ b) ≡ split a ++ split b
unfolding split
split_below [] b = refl
split_below (c ∷ cs) b = elim (Bool-cases (c == slash)) [
  | inl e ↦ rw (e, split_below cs b) refl
  | inr e ↦ rw (e, split_below cs b) (cons_head-append c (split cs) (split b) (split-ne-nil cs))
]

All-append : (ps qs : List Bytes) → All IsSegment ps → All IsSegment qs → All IsSegment (ps ++ qs)
All-append [] qs h k = k
All-append (p ∷ ps) qs h k = (h.0, All-append ps qs h.1 k)

-- A valid path other than "." below another is a valid path.
pub below-valid :
    (base rel : Bytes)
    → valid_path base ≡ true
    → base ≢ dot
    → valid_path rel ≡ true
    → rel ≢ dot
    → valid_path (base ++ slash ∷ rel) ≡ true
below-valid base rel v n w m =
    subst (λ z. valid_path z ≡ true) (join-split (base ++ slash ∷ rel))
      (valid_path-join (split (base ++ slash ∷ rel)) (split-ne-nil _) segments)
  where
    segments : All IsSegment (split (base ++ slash ∷ rel))
    segments = elim (valid_path-split base v) [
      | inl e ↦ absurd (n e)
      | inr h ↦ elim (valid_path-split rel w) [
        | inl e ↦ absurd (m e)
        | inr k ↦ rw (split_below base rel) (All-append (split base) (split rel) h k)
      ]
    ]
