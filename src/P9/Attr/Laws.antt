-- ===== src/P9/Attr/Laws.antt =====
-- What the conversions keep, and where joined paths lie.
use star.Base.{
  ℕ, ◌<◌, ◌≡◌, ◌≢◌, refl, sym, subst, ◌∙◌, Bool, true, ◌&&◌, [], ◌∷◌, ◌++◌, Bytes, bytes_eq, arith,
  bit_or, ◌==◌, ==_iff, Bool-cases, inl, inr, zero, suc, bytes_eq_iff,
}
use star.Core.Error.{ErrorKind, Error, ok, kind_of}
use star.Core.Mode
use star.Core.Mode.{from_perm, unix_type_and_perm, is_dir, dir}
use star.Core.Path.{slash, dot, base_name, is_plain, valid_path, parent_path}
use star.Core.Path.Clean.{IsSegment, valid_path-clean_path, clean_path_valid}
use star.Core.Path.Segments.{has_slash}
use star.Core.Path.Join.{
  parent_path-valid, segment_valid, parent_path_segment, child_valid, parent_path_child,
}
use star.Core.Path.Parts.{base_name_last, base_name_only}
use star.P9.Attr.{
  mode_from_unix, errno_for_error, errno_to_error, errno_of_kind, join_path, walk_join,
  checked_join, contains_slash,
}

-- The kinds of file that 9P modes distinguish.
data FileKind : Type 0 where
  plain directory link pipe socket : FileKind

abbrev kind_bits : FileKind → ℕ
kind_bits FileKind.plain = 0
kind_bits FileKind.directory = Mode.dir
kind_bits FileKind.link = Mode.symlink
kind_bits FileKind.pipe = Mode.named_pipe
kind_bits FileKind.socket = Mode.socket

survives : FileKind → ℕ → Bool
survives k p = let mode = bit_or (kind_bits k) p in mode_from_unix (unix_type_and_perm mode) == mode

-- All permissions below a bound survive.
survives_to : FileKind → ℕ → Bool
unfolding survives
survives_to k zero = true
survives_to k (suc bound) = survives_to k bound && survives k bound

survives_to-survives :
    (k : FileKind) (bound p : ℕ) → p < bound → survives_to k bound ≡ true → survives k p ≡ true
unfolding survives_to
survives_to-survives k zero p h e = absurd (omega (arith, h))
survives_to-survives k (suc bound) p h e =
    let below = survives_to-survives k bound p in ground (arith, h, e, below)

every_kind-survives : (k : FileKind) → survives_to k 512 ≡ true
unfolding survives_to survives mode_from_unix unix_type_and_perm from_perm
every_kind-survives FileKind.plain = refl
every_kind-survives FileKind.directory = refl
every_kind-survives FileKind.link = refl
every_kind-survives FileKind.pipe = refl
every_kind-survives FileKind.socket = refl

-- The mode of a plain file, a directory, a link, a pipe or a socket with any permissions below 512
-- survives the way to a 9P mode and back.
mode_from_unix-unix_type_and_perm :
    (k : FileKind) (p : ℕ)
    → p < 512
    → mode_from_unix (unix_type_and_perm (bit_or (kind_bits k) p)) ≡ bit_or (kind_bits k) p
unfolding survives
mode_from_unix-unix_type_and_perm k p h =
    (==_iff _ _).0 (survives_to-survives k 512 p h (every_kind-survives k))

-- The kinds that have an error number of their own.
abbrev pub HasErrno : ErrorKind → Type 0
HasErrno ErrorKind.closed = ⊥
HasErrno ErrorKind.unexpected_eof = ⊥
HasErrno _ = Unit

-- An error crosses the wire with its kind, but for `Closed` and `UnexpectedEof`.
kind_of-errno :
    (e : Error) → HasErrno (kind_of e) → kind_of (errno_to_error (errno_for_error e)) ≡ kind_of e
unfolding errno_for_error errno_to_error
kind_of-errno e h = go (kind_of e) h
  where
    go : (k : ErrorKind) → HasErrno k → kind_of (errno_to_error (errno_of_kind k)) ≡ k
    go ErrorKind.not_found h = refl
    go ErrorKind.already_exists h = refl
    go ErrorKind.invalid h = refl
    go ErrorKind.permission_denied h = refl
    go ErrorKind.not_supported h = refl
    go ErrorKind.not_empty h = refl
    go ErrorKind.closed h = absurd h
    go ErrorKind.not_dir h = refl
    go ErrorKind.is_dir h = refl
    go ErrorKind.unexpected_eof h = absurd h
    go ErrorKind.other h = refl

pub join_path-valid : (base name : Bytes) → valid_path (join_path base name) ≡ true
unfolding join_path
join_path-valid base name = elim (Bool-cases (bytes_eq base dot)) [
  | inl e ↦ rw e (valid_path-clean_path name)
  | inr e ↦ rw e (valid_path-clean_path (base ++ slash ∷ name))
]

pub walk_join-valid :
    (base name : Bytes) → valid_path base ≡ true → valid_path (walk_join base name) ≡ true
unfolding walk_join
walk_join-valid base name h = ground (arith, h, parent_path-valid base, join_path-valid base name)

pub checked_join-valid :
    (base name : Bytes) {path : Bytes} → checked_join base name ≡ ok path → valid_path path ≡ true
unfolding checked_join
checked_join-valid base name e = ground (arith, join_path-valid base name)

contains_slash-has_slash : (s : Bytes) → contains_slash s ≡ has_slash s
unfolding contains_slash has_slash
contains_slash-has_slash [] = refl
contains_slash-has_slash (c ∷ cs) = rw (contains_slash-has_slash cs) refl

-- `checked_join` accepts the plain segments.
checked_join-IsSegment :
    (base name : Bytes) {path : Bytes}
    → checked_join base name ≡ ok path
    → IsSegment name × (join_path base name ≡ path)
unfolding checked_join is_plain
checked_join-IsSegment base name {path} e = (
  record { no_slash = ground (arith, contains_slash-has_slash name); plain = ground arith },
  ground arith,
)

-- What `checked_join` accepts below a valid path lies directly in that directory: the result is a
-- valid path, its parent is the base and its base name is the name.
pub checked_join-parent :
    (base name : Bytes) {path : Bytes}
    → valid_path base ≡ true
    → checked_join base name ≡ ok path
    → (valid_path path ≡ true) × (parent_path path ≡ base) × (base_name path ≡ name)
unfolding join_path
checked_join-parent base name {path} v e =
    let (s, q) = checked_join-IsSegment base name e in
    subst (λ z. (valid_path z ≡ true) × (parent_path z ≡ base) × (base_name z ≡ name)) q
      (elim (Bool-cases (bytes_eq base dot)) [
        | inl d ↦
            rw (d, clean_path_valid name (segment_valid name s))
              (
                segment_valid name s,
                parent_path_segment name s ∙ sym ((bytes_eq_iff base dot).0 d),
                base_name_only name s.no_slash,
              )
        | inr d ↦
            let n : base ≢ dot = λ b. cc (d, (bytes_eq_iff base dot).1 b) in
            rw (d, clean_path_valid _ (child_valid name s base v n))
              (
                child_valid name s base v n,
                parent_path_child name s base v n,
                base_name_last base name s.no_slash,
              )
      ])
