-- ===== src/Core/Path/Join.antt =====
-- A plain segment joined to a valid path: the result is valid, and `parent_path` and `base_name`
-- give the two back.
use star.Base.{
  ◌≡◌, ◌≢◌, refl, subst, true, some, none, List, [], ◌∷◌, ◌++◌, Bytes, All, bytes_eq, arith,
  Bool-cases, inl, inr,
}
use star.Core.Path.{slash, dot, split, join, clean_path, valid_path, parent_path, rsplit_once}
use star.Core.Path.Segments.{has_slash, NoSlash, split_segment, join-split, split-ne-nil}
use star.Core.Path.Clean.{IsSegment, valid_path-join, valid_path-split, clean_path_valid}
use star.Core.Path.Parts.{parent_path-base_name, split_last, split-dot, ne_dot}

pub parent_path-valid : (path : Bytes) → valid_path (parent_path path) ≡ true
parent_path-valid path = elim (Bool-cases (bytes_eq (clean_path path) dot)) [
  | inl e ↦ unfold parent_path in rw e (unfold valid_path bytes_eq in refl)
  | inr e ↦ (parent_path-base_name path (λ d. cc (e, is_dot d))).0
]
  where
    is_dot : clean_path path ≡ dot → bytes_eq (clean_path path) dot ≡ true
    is_dot d = rw d (unfold bytes_eq in refl)

rsplit_once_only : (s : Bytes) → NoSlash s → rsplit_once s ≡ none
unfolding rsplit_once has_slash
rsplit_once_only [] h = refl
rsplit_once_only (c ∷ cs) h = ground (arith, rsplit_once_only cs)

rsplit_once_last : (a b : Bytes) → NoSlash b → rsplit_once (a ++ slash ∷ b) ≡ some (a, b)
unfolding rsplit_once
rsplit_once_last [] b h = rw (rsplit_once_only b h, rsplit_once) refl
rsplit_once_last (c ∷ cs) b h = rw (rsplit_once_last cs b h, rsplit_once) refl

module _ (name : Bytes) (s : IsSegment name) where
  pub segment_valid : valid_path name ≡ true
  unfolding join
  segment_valid = valid_path-join (name ∷ []) (λ e. cc) (s, tt)

  segment_ne_dot : name ≢ dot
  segment_ne_dot = split-dot name (rw (split_segment name s.no_slash) (s, tt))

  pub parent_path_segment : parent_path name ≡ dot
  unfolding parent_path
  parent_path_segment =
      rw
        (
          clean_path_valid name segment_valid,
          ne_dot name segment_ne_dot,
          rsplit_once_only name s.no_slash,
        )
        refl

  All-last : (ps : List Bytes) → All IsSegment ps → All IsSegment (ps ++ name ∷ [])
  All-last [] h = (s, tt)
  All-last (p ∷ ps) h = (h.0, All-last ps h.1)

  module _ (base : Bytes) (valid : valid_path base ≡ true) (n : base ≢ dot) where
    child_segments : All IsSegment (split (base ++ slash ∷ name))
    child_segments = elim (valid_path-split base valid) [
      | inl e ↦ absurd (n e)
      | inr h ↦ rw (split_last base name s.no_slash) (All-last (split base) h)
    ]

    pub child_valid : valid_path (base ++ slash ∷ name) ≡ true
    child_valid =
        subst (λ z. valid_path z ≡ true) (join-split (base ++ slash ∷ name))
          (valid_path-join (split (base ++ slash ∷ name)) (split-ne-nil _) child_segments)

    pub parent_path_child : parent_path (base ++ slash ∷ name) ≡ base
    unfolding parent_path
    parent_path_child =
        rw
          (
            clean_path_valid (base ++ slash ∷ name) child_valid,
            ne_dot (base ++ slash ∷ name) (split-dot _ child_segments),
            rsplit_once_last base name s.no_slash,
          )
          refl
