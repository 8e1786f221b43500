-- ===== src/Vfs/Bindings.antt =====
-- `Namespace` of crates/star9-vfs/src/lib.rs: its bindings, and how a name finds its targets. A
-- reference to a file system is its identity, a number; its `stat` is a parameter that runs on the
-- state `W` of all file systems.
use star.Base.{
  ℕ, Bool, ◌||◌, ◌&&◌, not, ◌==◌, leb, length, List, [], ◌∷◌, ◌++◌, Bytes, bytes_eq, codes,
  starts_with, Option, none, some, if◌then◌else◌,
}
use star.Core.Error.{Error, ErrorKind, Result, ok, err}
use star.Core.Mode.{Metadata}
use star.Core.Path.{slash, dot, clean_path, valid_path, strip_dir}
use star.Vfs.Map.{Map, lookup, put, delete, keep_keys}

pub data BindMode : Type 0 where
  after replace before : BindMode

pub record BindTarget : Type 0 where
  pub fs : ℕ
  pub path : Bytes
  pub metadata : Metadata

abbrev pub Bindings : Type 0
Bindings = Map (List BindTarget)

-- `entry(..).or_default()`
unfoldable pub targets_at : Bytes → Bindings → List BindTarget
targets_at dst bindings = elim (lookup dst bindings) [ none ↦ [] | some targets ↦ targets ]

-- The `match` on the mode.
unfoldable pub bind_target : Bytes → BindTarget → BindMode → Bindings → Bindings
bind_target dst target BindMode.after bindings = put dst (target ∷ targets_at dst bindings) bindings
bind_target dst target BindMode.before bindings =
    put dst (targets_at dst bindings ++ target ∷ []) bindings
bind_target dst target BindMode.replace bindings = put dst (target ∷ []) bindings

module _ {W : Type 0} (stat : ℕ → Bytes → W → Result Metadata × W) where
  -- What follows `src.stat(..)?`.
  unfoldable pub bind_found :
      ℕ
      → Bytes
      → Bytes
      → BindMode
      → Result Metadata × W
      → Bindings
      → Result (Unit {0}) × Bindings × W
  bind_found src src_path dst_path mode (err e, w) bindings = (err e, bindings, w)
  bind_found src src_path dst_path mode (ok meta, w) bindings =
      let target : BindTarget = record { fs = src; path = src_path; metadata = meta } in
      (ok tt, bind_target dst_path target mode bindings, w)

  unfoldable pub bind :
      ℕ → Bytes → Bytes → BindMode → Bindings → W → Result (Unit {0}) × Bindings × W
  unfolding bind_found bind_target targets_at
  bind src src_path dst_path mode bindings w =
      if not (valid_path src_path)
      then (err (Error.path "bind" src_path ErrorKind.not_found), bindings, w)
      else if not (valid_path dst_path)
      then (err (Error.path "bind" dst_path ErrorKind.not_found), bindings, w)
      else bind_found src (clean_path src_path) (clean_path dst_path) mode
          (stat src (clean_path src_path) w) bindings

-- `targets.retain(..)`
unfoldable pub retain : (BindTarget → Bool) → List BindTarget → List BindTarget
retain p [] = []
retain p (target ∷ targets) =
    let rest = retain p targets in if p target then target ∷ rest else rest

-- The targets that are left, under their path if there are any.
unfoldable pub keep_targets : Bytes → List BindTarget → Bindings → Bindings
keep_targets dst [] bindings = delete dst bindings
keep_targets dst (target ∷ targets) bindings = put dst (target ∷ targets) bindings

unfoldable pub unbind : ℕ → Bytes → Bytes → Bindings → Result (Unit {0}) × Bindings
unfolding retain keep_targets
unbind src src_path dst_path bindings =
    let is_other = λ (target : BindTarget).
      not (target.fs == src && bytes_eq target.path (clean_path src_path)) in
    let dst = clean_path dst_path in
    if not (valid_path src_path)
    then (err (Error.path "unbind" src_path ErrorKind.not_found), bindings)
    else if not (valid_path dst_path)
    then (err (Error.path "unbind" dst_path ErrorKind.not_found), bindings)
    else elim (lookup dst bindings) [
      | none ↦ (ok tt, bindings)
      | some targets ↦ (ok tt, keep_targets dst (retain is_other targets) bindings)
    ]

unfoldable pub unbind_path : Bytes → Bindings → Result (Unit {0}) × Bindings
unbind_path dst_path bindings =
    let dst = clean_path dst_path in
    if not (valid_path dst_path)
    then (err (Error.path "unmount" dst_path ErrorKind.not_found), bindings)
    else elim (lookup dst bindings) [
      | none ↦ (err (Error.path "unmount" dst ErrorKind.not_found), delete dst bindings)
      | some targets ↦ (ok tt, delete dst bindings)
    ]

-- Whether nothing was removed is told from the number of targets that are left.
unfoldable pub drop_source :
    Bytes → Bytes → List BindTarget → Bindings → Result (Unit {0}) × Bindings
unfolding retain keep_targets targets_at
drop_source src dst targets bindings =
    let is_other = λ (target : BindTarget). not (bytes_eq target.path src) in
    let kept = keep_targets dst (retain is_other targets) bindings in
    if length targets == length (targets_at dst kept)
    then (err (Error.path "unmount" src ErrorKind.not_found), kept)
    else (ok tt, kept)

unfoldable pub unbind_source_path : Bytes → Bytes → Bindings → Result (Unit {0}) × Bindings
unfolding drop_source
unbind_source_path src_path dst_path bindings =
    let dst = clean_path dst_path in
    if not (valid_path src_path)
    then (err (Error.path "unmount" src_path ErrorKind.not_found), bindings)
    else if not (valid_path dst_path)
    then (err (Error.path "unmount" dst_path ErrorKind.not_found), bindings)
    else elim (lookup dst bindings) [
      | none ↦ (err (Error.path "unmount" dst ErrorKind.not_found), bindings)
      | some targets ↦ drop_source (clean_path src_path) dst targets bindings
    ]

unfoldable pub unbind_all : Bindings → Bindings
unbind_all bindings = keep_keys (starts_with (codes "#")) bindings

-- `bind_path == "." || bind_path == name || name.starts_with(bind_path + "/")`
unfoldable pub is_match : Bytes → Bytes → Bool
is_match name bind_path =
    bytes_eq bind_path dot || bytes_eq bind_path name || starts_with (bind_path ++ slash ∷ []) name

-- A sort by the length of the path, the longest first, that keeps the order of equal ones.
unfoldable pub insert_by_len :
    Bytes × List BindTarget → List (Bytes × List BindTarget) → List (Bytes × List BindTarget)
insert_by_len (path, targets) [] = (path, targets) ∷ []
insert_by_len (path, targets) ((path', targets') ∷ rest) =
    let tail = insert_by_len (path, targets) rest in
    if leb (length path') (length path)
    then (path, targets) ∷ (path', targets') ∷ rest
    else (path', targets') ∷ tail

unfoldable pub sort_by_len : List (Bytes × List BindTarget) → List (Bytes × List BindTarget)
unfolding insert_by_len
sort_by_len [] = []
sort_by_len (entry ∷ entries) = insert_by_len entry (sort_by_len entries)

unfoldable pub matching_targets : Bytes → Bindings → List (Bytes × List BindTarget)
unfolding sort_by_len is_match
matching_targets name bindings = sort_by_len (keep_keys (is_match name) bindings)

abbrev or_dot : Option Bytes → Bytes
or_dot none = dot
or_dot (some rel) = rel

unfoldable pub under_target : Bytes → Bytes → Bytes
under_target target name =
    if bytes_eq target dot then clean_path name else clean_path (target ++ slash ∷ name)

unfoldable pub target_path : Bytes → Bytes → Bytes → Bytes
unfolding under_target
target_path bind_path target name =
    if bytes_eq bind_path name
    then clean_path target
    else if bytes_eq bind_path dot
    then under_target target name
    else under_target target (or_dot (strip_dir bind_path name))
