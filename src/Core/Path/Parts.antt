-- ===== src/Core/Path/Parts.antt =====
-- `parent_path`, `base_name` and `relative_under` take valid paths apart.
use star.Base.{
  ℕ, ◌≡◌, refl, ap, subst, ◌∙◌, ◌≢◌, ◌⊎◌, true, false, Option, none, some, List, [], ◌∷◌, ◌++◌,
  Bytes, All, arith, ◌==◌, ==_refl, if◌then◌else◌, Bool-cases, Option-cases, inl, inr, bytes_eq,
  bytes_eq_iff, ==_iff, length, length-append,
}
use mathlib.Core.List.{reverse-append}
use star.Core.Path.{
  slash, dot, split, cons_head, clean_path, valid_path, base_name, rsplit_once, parent_path,
  strip_prefix, strip_dir, relative_under, is_plain, is_nil,
}
use star.Core.Path.Segments.{has_slash, split_segment, NoSlash, join-split, split-ne-nil}
use star.Core.Path.Clean.{
  IsSegment, clean_path_valid, valid_path-clean_path, valid_path-join, valid_path-split,
}

abbrev Halves : Bytes → Option (Bytes × Bytes) → Type 0
Halves p none = NoSlash p
Halves p (some (a, b)) = (p ≡ a ++ slash ∷ b) × NoSlash b

rsplit_once-Halves : (p : Bytes) → Halves p (rsplit_once p)
unfolding rsplit_once has_slash
rsplit_once-Halves [] = refl
rsplit_once-Halves (c ∷ cs) = step (rsplit_once cs) (rsplit_once-Halves cs)
  where
    step :
        (o : Option (Bytes × Bytes))
        → Halves cs o
        → Halves (c ∷ cs) (elim o [
          | some (before, after) ↦ some (c ∷ before, after)
          | none ↦ if c == slash then some ([], cs) else none
        ])
    step none h = elim (Bool-cases (c == slash)) [
      | inl e ↦ rw e (cc ((==_iff c slash).0 e), h)
      | inr e ↦ rw e (rw e h)
    ]
    step (some (a, b)) h = (cc (h.0), h.1)

pub cons_head-append :
    (c : ℕ) (ps l : List Bytes) → ps ≢ [] → cons_head c (ps ++ l) ≡ cons_head c ps ++ l
cons_head-append c [] l n = absurd (n refl)
cons_head-append c (p ∷ ps) l n = refl

pub split_last : (a b : Bytes) → NoSlash b → split (a ++ slash ∷ b) ≡ split a ++ b ∷ []
unfolding split
split_last [] b h = ap (λ l. [] ∷ l) (split_segment b h)
split_last (c ∷ cs) b h = elim (Bool-cases (c == slash)) [
  | inl e ↦ rw (e, split_last cs b h) refl
  | inr e ↦ rw (e, split_last cs b h) (cons_head-append c (split cs) (b ∷ []) (split-ne-nil cs))
]

pub base_name_last : (a b : Bytes) → NoSlash b → base_name (a ++ slash ∷ b) ≡ b
unfolding base_name
base_name_last a b h = rw (split_last a b h, reverse-append (split a) (b ∷ [])) refl

pub base_name_only : (p : Bytes) → NoSlash p → base_name p ≡ p
unfolding base_name
base_name_only p h = rw (split_segment p h) refl

All-init :
    (ps : List Bytes) (b : Bytes) → All IsSegment (ps ++ b ∷ []) → All IsSegment ps × IsSegment b
All-init [] b h = (tt, h.0)
All-init (p ∷ ps) b h = let (x, y) = All-init ps b h.1 in ((h.0, x), y)

pub split-dot : (s : Bytes) → All IsSegment (split s) → s ≢ dot
unfolding split is_plain is_nil bytes_eq
split-dot s h e =
    let d : All IsSegment (split dot) = subst (λ z. All IsSegment (split z)) e h in cc (d.0.plain)

pub ne_dot : (s : Bytes) → s ≢ dot → bytes_eq s dot ≡ false
ne_dot s n = elim (Bool-cases (bytes_eq s dot)) [
  | inl e ↦ absurd (n ((bytes_eq_iff s dot).0 e))
  | inr e ↦ e
]

abbrev parent_of : Option (Bytes × Bytes) → Bytes
parent_of o = elim o [ some (parent, _) ↦ parent | none ↦ dot ]

-- A parent and a base name that make up the path `p`.
abbrev MakesUp : Bytes → Bytes → Bytes → Type 0
MakesUp p parent base =
    (valid_path parent ≡ true)
    × IsSegment base
    × (p ≡ (if bytes_eq parent dot then base else parent ++ slash ∷ base))

parent_of-MakesUp :
    (p : Bytes) (o : Option (Bytes × Bytes))
    → All IsSegment (split p)
    → Halves p o
    → MakesUp p (parent_of o) (base_name p)
parent_of-MakesUp p none s h =
    rw (base_name_only p h)
      (unfold valid_path bytes_eq in (refl, (subst (All IsSegment) (split_segment p h) s).0, refl))
parent_of-MakesUp p (some (a, b)) s h =
    let t : All IsSegment (split a ++ b ∷ []) =
      subst (All IsSegment) (split_last a b h.1) (subst (λ z. All IsSegment (split z)) h.0 s) in
    let (u, v) = All-init (split a) b t in
    let valid : valid_path a ≡ true =
      subst (λ z. valid_path z ≡ true) (join-split a)
        (valid_path-join (split a) (split-ne-nil a) u) in
    let base : base_name p ≡ b = ap base_name h.0 ∙ base_name_last a b h.1 in
    rw (base, ne_dot a (split-dot a u)) (valid, v, h.0)

-- The clean form of a path other than "." is its parent, a slash and its base name, where a parent
-- "." is left out; the parent is a valid path and the base name a plain segment.
pub parent_path-base_name :
    (path : Bytes)
    → clean_path path ≢ dot
    → MakesUp (clean_path path) (parent_path path) (base_name (clean_path path))
unfolding parent_path
parent_path-base_name path n =
    rw (ne_dot (clean_path path) n)
      (elim (valid_path-split (clean_path path) (valid_path-clean_path path)) [
        | inl e ↦ absurd (n e)
        | inr s ↦
            parent_of-MakesUp (clean_path path) (rsplit_once (clean_path path)) s
              (rsplit_once-Halves (clean_path path))
      ])

strip_prefix-append : (root rest : Bytes) → strip_prefix root (root ++ rest) ≡ some rest
unfolding strip_prefix
strip_prefix-append [] rest = refl
strip_prefix-append (c ∷ cs) rest = rw (==_refl c) (strip_prefix-append cs rest)

strip_prefix-eq_some :
    (root name : Bytes) {rest : Bytes} → strip_prefix root name ≡ some rest → name ≡ root ++ rest
unfolding strip_prefix
strip_prefix-eq_some [] name e = cc
strip_prefix-eq_some (c ∷ cs) [] e = absurd (cc)
strip_prefix-eq_some (c ∷ cs) (d ∷ ds) {rest} e =
    ground (arith, strip_prefix-eq_some cs ds {rest = rest})

pub strip_dir-child : (root rest : Bytes) → strip_dir root (root ++ slash ∷ rest) ≡ some rest
unfolding strip_dir
strip_dir-child root rest =
    rw (strip_prefix-append root (slash ∷ rest), strip_dir) (strip_prefix-append (slash ∷ []) rest)

strip_dir-eq_some :
    (root name : Bytes) {rest : Bytes}
    → strip_dir root name ≡ some rest
    → name ≡ root ++ slash ∷ rest
unfolding strip_dir
strip_dir-eq_some root name {rest} e = elim (Option-cases (strip_prefix root name)) [
  | inl n ↦ absurd (cc (rw (n, strip_dir) at e))
  | inr (tail, t) ↦
      strip_prefix-eq_some root name t
      ∙ ap (λ l. root ++ l) (strip_prefix-eq_some (slash ∷ []) tail (rw (t, strip_dir) at e))
]

pub longer : (root rest : Bytes) → root ≢ root ++ slash ∷ rest
longer root rest e = omega (arith, ap length e, length-append root (slash ∷ rest))

pub bytes_ne : (a b : Bytes) → a ≢ b → bytes_eq a b ≡ false
bytes_ne a b n = elim (Bool-cases (bytes_eq a b)) [
  | inl e ↦ absurd (n ((bytes_eq_iff a b).0 e))
  | inr e ↦ e
]

-- Below a root other than ".", a valid path joined on by a slash is given back.
pub relative_under_child :
    (root rel : Bytes)
    → root ≢ dot
    → valid_path rel ≡ true
    → relative_under root (root ++ slash ∷ rel) ≡ some rel
unfolding relative_under
relative_under_child root rel n h =
    rw (bytes_ne _ _ (longer root rel), ne_dot root n, strip_dir-child root rel)
      (ap some (clean_path_valid rel h))

-- `relative_under` returns a path only for the root itself, for "." as root, or for a name that goes
-- on behind the root with a slash, and it is the clean form of what follows.
pub relative_under_sound :
    (root name : Bytes) {rel : Bytes}
    → relative_under root name ≡ some rel
    → ((root ≡ name) × (rel ≡ dot))
      ⊎ ((root ≡ dot) × (rel ≡ clean_path name))
      ⊎ ((rest : Bytes) × (name ≡ root ++ slash ∷ rest) × (rel ≡ clean_path rest))
unfolding relative_under
relative_under_sound root name {rel} e = elim (Bool-cases (bytes_eq root name)) [
  | inl a ↦ inl ((bytes_eq_iff root name).0 a, cc (rw a at e))
  | inr a ↦ elim (Bool-cases (bytes_eq root dot)) [
    | inl b ↦ inr (inl ((bytes_eq_iff root dot).0 b, cc (rw (a, b) at e)))
    | inr b ↦ elim (Option-cases (strip_dir root name)) [
      | inl n ↦ absurd (cc (rw (a, b, n) at e))
      | inr (rest, t) ↦ inr (inr (rest, strip_dir-eq_some root name t, cc (rw (a, b, t) at e)))
    ]
  ]
]
