-- ===== src/Core/Path/Clean.antt =====
-- `clean_path` returns valid paths and leaves valid paths alone.
use star.Base.{
  ◌≡◌, refl, sym, ◌∙◌, ◌≢◌, ◌⊎◌, Bool, true, false, ◌||◌, List, [], ◌∷◌, ◌++◌, Bytes, All, arith,
  if◌then◌else◌, Bool-cases, inl, inr, append_assoc, append-nil, bytes_eq, bytes_eq_iff,
}
use star.Core.Path.{
  dot, dot_dot, split, join, pop, is_nil, is_plain, all_plain, starts_with_slash, ends_with_slash,
  clean_step, clean_parts, clean_path, trim_slashes, valid_path,
}
use star.Core.Path.Segments.{has_slash, NoSlash, All-split, join-split, split-join, split-ne-nil}

-- A segment of a valid path.
pub record IsSegment (s : Bytes) : Type 0 where
  pub no_slash : NoSlash s
  pub plain : is_plain s ≡ true

All-pop : (ps : List Bytes) → All IsSegment ps → All IsSegment (pop ps)
unfolding pop
All-pop [] h = tt
All-pop (p ∷ []) h = tt
All-pop (p ∷ q ∷ ps) h = (h.0, All-pop (q ∷ ps) h.1)

All-snoc :
    (ps : List Bytes) (p : Bytes) → All IsSegment ps → IsSegment p → All IsSegment (ps ++ p ∷ [])
All-snoc [] p h k = (k, tt)
All-snoc (q ∷ ps) p h k = (h.0, All-snoc ps p h.1 k)

clean_step-IsSegment :
    (ps : List Bytes) (p : Bytes) → All IsSegment ps → NoSlash p → All IsSegment (clean_step ps p)
unfolding clean_step
clean_step-IsSegment ps p h n = elim (Bool-cases (is_nil p || bytes_eq p dot)) [
  | inl e ↦ rw e h
  | inr e ↦ rw e (elim (Bool-cases (bytes_eq p dot_dot)) [
    | inl f ↦ rw f (All-pop ps h)
    | inr f ↦
        rw f (
          All-snoc ps p h
            (record { no_slash = n; plain = unfold is_plain in ground (arith, e, f) }))
  ])
]

clean_parts-IsSegment :
    (acc ps : List Bytes) → All IsSegment acc → All NoSlash ps → All IsSegment (clean_parts acc ps)
unfolding clean_parts
clean_parts-IsSegment acc [] h n = h
clean_parts-IsSegment acc (p ∷ ps) h n =
    clean_parts-IsSegment (clean_step acc p) ps (clean_step-IsSegment acc p h n.0) n.1

clean_step_plain :
    (acc : List Bytes) (p : Bytes) → is_plain p ≡ true → clean_step acc p ≡ acc ++ p ∷ []
unfolding clean_step is_plain
clean_step_plain acc p h = ground arith

pub clean_parts_plain : (acc ps : List Bytes) → all_plain ps ≡ true → clean_parts acc ps ≡ acc ++ ps
unfolding clean_parts all_plain
clean_parts_plain acc [] h = sym (append-nil acc)
clean_parts_plain acc (p ∷ ps) h =
    rw (clean_step_plain acc p (ground arith))
      (clean_parts_plain (acc ++ p ∷ []) ps (ground arith) ∙ append_assoc acc (p ∷ []) ps)

segment_start :
    (s rest : Bytes)
    → IsSegment s
    → (is_nil (s ++ rest) ≡ false) × (starts_with_slash (s ++ rest) ≡ false)
unfolding is_nil starts_with_slash is_plain has_slash
segment_start [] rest h = absurd (cc h.plain)
segment_start (c ∷ cs) rest h = (refl, ground (arith, h.no_slash))

-- A join of segments begins with one.
join_start :
    (ps : List Bytes)
    → ps ≢ []
    → All IsSegment ps
    → (is_nil (join ps) ≡ false) × (starts_with_slash (join ps) ≡ false)
unfolding join
join_start [] n h = absurd (n refl)
join_start (p ∷ []) n h = rw append-nil at (segment_start p [] h.0)
join_start (p ∷ q ∷ ps) n h = segment_start p _ h.0

trim_slashes_id : (p : Bytes) → starts_with_slash p ≡ false → trim_slashes p ≡ p
unfolding trim_slashes starts_with_slash
trim_slashes_id [] h = refl
trim_slashes_id (c ∷ cs) h = rw h

-- The last segment of a path that ends with a slash is empty.
nil_behind : List Bytes → Bool
nil_behind [] = false
nil_behind (p ∷ ps) = all_plain ps

ends_split : (p : Bytes) → ends_with_slash p ≡ true → nil_behind (split p) ≡ false
unfolding split ends_with_slash nil_behind all_plain is_plain is_nil
ends_split [] h = cc
ends_split (c ∷ []) h = rw h
ends_split (c ∷ d ∷ cs) h = ground (arith, ends_split (d ∷ cs) h)

nil_behind_plain : (ps : List Bytes) → ps ≢ [] → all_plain ps ≡ true → nil_behind ps ≡ true
unfolding nil_behind all_plain
nil_behind_plain [] n h = absurd (n refl)
nil_behind_plain (p ∷ ps) n h = ground arith

ends_plain : (p : Bytes) → all_plain (split p) ≡ true → ends_with_slash p ≡ false
ends_plain p h = elim (Bool-cases (ends_with_slash p)) [
  | inl e ↦ absurd (cc (ends_split p e, nil_behind_plain (split p) (split-ne-nil p) h))
  | inr e ↦ e
]

starts_plain :
    (p : Bytes) → all_plain (split p) ≡ true → (is_nil p ≡ false) × (starts_with_slash p ≡ false)
unfolding split all_plain is_plain is_nil starts_with_slash
starts_plain [] h = absurd (cc h)
starts_plain (c ∷ cs) h = (refl, ground arith)

-- Of the tests of `valid_path` the one on the segments implies the others.
plain_split-valid_path : (p : Bytes) → all_plain (split p) ≡ true → valid_path p ≡ true
unfolding valid_path
plain_split-valid_path p h =
    ground (arith, (starts_plain p h).0, (starts_plain p h).1, ends_plain p h)

all_plain-IsSegment : (ps : List Bytes) → All IsSegment ps → all_plain ps ≡ true
unfolding all_plain
all_plain-IsSegment [] h = refl
all_plain-IsSegment (p ∷ ps) h = rw (h.0.plain) (all_plain-IsSegment ps h.1)

All-NoSlash : (ps : List Bytes) → All IsSegment ps → All NoSlash ps
All-NoSlash [] h = tt
All-NoSlash (p ∷ ps) h = (h.0.no_slash, All-NoSlash ps h.1)

pub valid_path-join : (ps : List Bytes) → ps ≢ [] → All IsSegment ps → valid_path (join ps) ≡ true
valid_path-join ps n h =
    plain_split-valid_path (join ps)
      (rw (split-join ps n (All-NoSlash ps h)) (all_plain-IsSegment ps h))

-- What `clean_path` makes of its segments.
abbrev finish : Bool → List Bytes → Bytes
finish absolute ps =
    let cleaned = join ps in
    if is_nil cleaned then dot else if absolute then trim_slashes cleaned else cleaned

finish-join :
    (absolute : Bool) (ps : List Bytes) → ps ≢ [] → All IsSegment ps → finish absolute ps ≡ join ps
finish-join absolute ps n h =
    let (a, b) = join_start ps n h in ground (arith, a, trim_slashes_id (join ps) b)

valid_path-finish :
    (absolute : Bool) (ps : List Bytes) → All IsSegment ps → valid_path (finish absolute ps) ≡ true
valid_path-finish absolute [] h = unfold valid_path join is_nil bytes_eq in refl
valid_path-finish absolute (p ∷ ps) h =
    rw (finish-join absolute (p ∷ ps) (λ e. cc) h) (valid_path-join (p ∷ ps) (λ e. cc) h)

-- Whatever it is given, `clean_path` returns a valid path.
pub valid_path-clean_path : (path : Bytes) → valid_path (clean_path path) ≡ true
unfolding clean_path
valid_path-clean_path path = elim (Bool-cases (is_nil path || bytes_eq path dot)) [
  | inl e ↦ rw e (unfold valid_path bytes_eq in refl)
  | inr e ↦ rw e (
      valid_path-finish (starts_with_slash path) _
        (clean_parts-IsSegment [] (split path) tt (All-split path)))
]

valid_path-cases :
    (path : Bytes) → valid_path path ≡ true → (path ≡ dot) ⊎ (all_plain (split path) ≡ true)
unfolding valid_path
valid_path-cases path h = elim (Bool-cases (bytes_eq path dot)) [
  | inl e ↦ inl ((bytes_eq_iff path dot).0 e)
  | inr e ↦ inr (ground (arith, e))
]

pub segments_plain : (ps : List Bytes) → All NoSlash ps → all_plain ps ≡ true → All IsSegment ps
unfolding all_plain
segments_plain [] n h = tt
segments_plain (p ∷ ps) n h =
    (record { no_slash = n.0; plain = ground arith }, segments_plain ps n.1 (ground arith))

-- A valid path is "." or has only segments.
pub valid_path-split :
    (path : Bytes) → valid_path path ≡ true → (path ≡ dot) ⊎ All IsSegment (split path)
valid_path-split path h = elim (valid_path-cases path h) [
  | inl e ↦ inl e
  | inr a ↦ inr (segments_plain (split path) (All-split path) a)
]

dot-eq :
    (path : Bytes) → valid_path path ≡ true → (is_nil path || bytes_eq path dot) ≡ true → dot ≡ path
dot-eq [] h e = absurd (unfold valid_path is_nil bytes_eq in cc h)
dot-eq (c ∷ cs) h e = sym ((bytes_eq_iff (c ∷ cs) dot).0 (unfold is_nil in e))

-- A valid path is clean.
pub clean_path_valid : (path : Bytes) → valid_path path ≡ true → clean_path path ≡ path
unfolding clean_path
clean_path_valid path h = elim (Bool-cases (is_nil path || bytes_eq path dot)) [
  | inl e ↦ rw e (dot-eq path h e)
  | inr e ↦ elim (valid_path-split path h) [
    | inl d ↦ absurd (not_dot d e)
    | inr s ↦
        rw (e, clean_parts_plain [] (split path) (all_plain-IsSegment _ s))
          (finish-join (starts_with_slash path) (split path) (split-ne-nil path) s
            ∙ join-split path)
  ]
]
  where
    not_dot : path ≡ dot → (is_nil path || bytes_eq path dot) ≡ false → ⊥
    not_dot d e = ground (arith, e, (bytes_eq_iff path dot).1 d)

-- `clean_path` is idempotent.
pub clean_path_idem : (path : Bytes) → clean_path (clean_path path) ≡ clean_path path
clean_path_idem path = clean_path_valid (clean_path path) (valid_path-clean_path path)

pub trim_slashes-valid_path : (path : Bytes) → valid_path path ≡ true → trim_slashes path ≡ path
unfolding valid_path
trim_slashes-valid_path path h = trim_slashes_id path (elim (Bool-cases (bytes_eq path dot)) [
  | inl e ↦ rw ((bytes_eq_iff path dot).0 e) (unfold starts_with_slash in refl)
  | inr e ↦ ground arith
])
