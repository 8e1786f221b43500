-- ===== src/Tests/Vfs.antt =====
-- Runs of the namespace of crates/star9-vfs/src/lib.rs.
use star.Base.{ℕ, ◌≡◌, refl, Bytes, codes, [], ◌∷◌, bytes_eq, if◌then◌else◌, ◌==◌, starts_with}
use star.Core.Error.{Error, ErrorKind, Result, ok, err}
use star.Core.Mode.{Metadata, dir_metadata}
use star.Core.Path.{
  dot, valid_path, is_nil, starts_with_slash, ends_with_slash, all_plain, split, is_plain,
  clean_path, join, clean_parts, clean_step, strip_dir, strip_prefix,
}
use star.Vfs.Map.{lookup, keep_keys}
use star.Vfs.Bindings.{
  unbind, BindMode, BindTarget, Bindings, targets_at, bind, is_match, matching_targets, target_path,
  under_target, sort_by_len, insert_by_len,
}
use star.Vfs.Laws.{unbind-bind, below, target_path-below}
use star.Vfs.Matching.{IsByLen, matching_targets-IsByLen}
use star.Vfs.Route.{candidates, at_targets, route_write, route_write-Refused, route_write_missing}
use mathlib.Core.List.{Perm}

-- All file systems, with nothing in their state.
abbrev World : Type 0
World = Unit {0}

abbrev all_dirs : ℕ → Bytes → World → Result Metadata × World
all_dirs fs path w = (ok (dir_metadata path 0o755), w)

abbrev root_of : ℕ → BindTarget
root_of fs = record { fs = fs; path = dot; metadata = dir_metadata dot 0o755 }

abbrev usr : Bytes
usr = codes "usr"

abbrev two : Bindings
two = (dot, root_of 1 ∷ []) ∷ (usr, root_of 2 ∷ []) ∷ []

unbind-bind_example :
    targets_at usr (unbind 3 dot usr (bind all_dirs 3 dot usr BindMode.before two tt).1).1
    ≡ targets_at usr two
unfolding valid_path bytes_eq is_nil starts_with_slash ends_with_slash all_plain split is_plain
    lookup targets_at
unbind-bind_example =
    unbind-bind all_dirs 3 dot usr usr BindMode.before two tt tt (dir_metadata dot 0o755) refl refl
      refl (λ e. cc e) (refl, tt)

-- A target that is bound after the others is the first one.
after_first :
    targets_at usr (bind all_dirs 3 dot usr BindMode.after two tt).1 ≡ root_of 3 ∷ root_of 2 ∷ []
unfolding bind valid_path bytes_eq is_nil starts_with_slash ends_with_slash all_plain split is_plain
    targets_at lookup clean_path clean_parts clean_step join star.Vfs.Map.put star.Vfs.Map.bytes_lt
after_first = refl

target_path-below_example :
    target_path usr (codes "export") (below usr (codes "bin/ls"))
    ≡ below (codes "export") (codes "bin/ls")
unfolding valid_path bytes_eq is_nil starts_with_slash ends_with_slash all_plain split is_plain
target_path-below_example =
    target_path-below usr (codes "export") (codes "bin/ls") refl refl (λ e. cc e)

matching_targets-IsByLen_example :
    IsByLen (matching_targets (codes "usr/x") two)
    × Perm (matching_targets (codes "usr/x") two) (keep_keys (is_match (codes "usr/x")) two)
matching_targets-IsByLen_example = matching_targets-IsByLen (codes "usr/x") two

-- An operation that only the first file system can do.
abbrev only_first : BindTarget → Bytes → World → Result Bytes × World
only_first target full w =
    if target.fs == 1 then (ok full, w) else (err (Error.kind ErrorKind.not_found), w)

-- An operation that no file system can do.
abbrev nowhere : BindTarget → Bytes → World → Result Bytes × World
nowhere target full w = (err (Error.kind ErrorKind.not_found), w)

route_write-Refused_example :
    route_write only_first "mkdir" (codes "usr/x") two tt
    ≡ only_first (root_of 1) (codes "usr/x") tt
unfolding lookup matching_targets candidates at_targets keep_keys is_match sort_by_len insert_by_len
    target_path under_target strip_dir strip_prefix starts_with clean_path clean_parts clean_step
    split join is_nil bytes_eq starts_with_slash
route_write-Refused_example =
    route_write-Refused only_first "mkdir" (codes "usr/x") two tt ((root_of 2, codes "x") ∷ []) []
      (root_of 1) (codes "usr/x") refl refl ((Error.kind ErrorKind.not_found, refl, refl), tt) tt

route_write_missing_example :
    route_write nowhere "mkdir" (codes "usr/x") two tt
    ≡ (err (Error.path "mkdir" (clean_path (codes "usr/x")) ErrorKind.not_found), tt)
unfolding lookup matching_targets candidates at_targets keep_keys is_match sort_by_len insert_by_len
    target_path under_target strip_dir strip_prefix starts_with clean_path clean_parts clean_step
    split join is_nil bytes_eq starts_with_slash
route_write_missing_example = route_write_missing nowhere "mkdir" (codes "usr/x") two tt refl (
  (Error.kind ErrorKind.not_found, refl, refl),
  ((Error.kind ErrorKind.not_found, refl, refl), tt),
)
