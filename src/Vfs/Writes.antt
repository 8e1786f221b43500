-- ===== src/Vfs/Writes.antt =====
-- The operations of the namespace of crates/star9-vfs/src/lib.rs that change a file system.
use star.Base.{ℕ, Bool, false, not, ◌||◌, ◌==◌, List, [], ◌∷◌, Bytes, if◌then◌else◌}
use star.Core.Error.{Error, ErrorKind, Result, ok, err, kind_of, is_passed_over}
use star.Core.Mode.{FileMode, Metadata, Time}
use star.Core.Context
use star.Core.Path.{dot, clean_path, valid_path, parent_path}
use star.Vfs.Bindings.{BindTarget, Bindings, matching_targets, target_path}
use star.Vfs.Route.{candidates, route_write}
use star.Vfs.Systems.{Systems}

-- `any(|candidate| Arc::ptr_eq(&candidate.fs, &target.fs))`
unfoldable pub has_fs : ℕ → List BindTarget → Bool
has_fs fs [] = false
has_fs fs (target ∷ targets) = target.fs == fs || has_fs fs targets

-- The first matching binding with a target of the file system, or `.`.
unfoldable pub bind_path_of : ℕ → List (Bytes × List BindTarget) → Bytes
unfolding has_fs
bind_path_of fs [] = dot
bind_path_of fs ((path, targets) ∷ rest) =
    let later = bind_path_of fs rest in if has_fs fs targets then path else later

-- The targets that match a name, each with the path there (`target_matches` holds of them all).
abbrev pub matches : Bytes → Bindings → List (BindTarget × Bytes)
matches name bindings = candidates name (matching_targets name bindings)

module _ (sys : Systems) where
  -- A name is made only where its parent is.
  unfoldable pub if_parent :
      {T : Type 0}
      → Error
      → (sys.World → Result T × sys.World)
      → Result Metadata × sys.World
      → Result T × sys.World
  if_parent missing make (ok meta, w) = make w
  if_parent missing make (err e, w) = (err missing, w)

  unfoldable pub create_at : BindTarget → Bytes → sys.World → Result sys.File × sys.World
  unfolding if_parent
  create_at target full w =
      if_parent (Error.path "create" full ErrorKind.not_found) (sys.create target.fs full)
        (sys.stat target.fs Context.new (parent_path full) w)

  unfoldable pub mkdir_at :
      FileMode → BindTarget → Bytes → sys.World → Result (Unit {0}) × sys.World
  unfolding if_parent
  mkdir_at perm target full w =
      if_parent (Error.path "mkdir" full ErrorKind.not_found) (sys.mkdir target.fs full perm)
        (sys.stat target.fs Context.new (parent_path full) w)

  unfoldable pub namespace_create : Bytes → Bindings → sys.World → Result sys.File × sys.World
  unfolding create_at
  namespace_create name = route_write create_at "create" name

  unfoldable pub namespace_mkdir :
      Bytes → FileMode → Bindings → sys.World → Result (Unit {0}) × sys.World
  unfolding mkdir_at
  namespace_mkdir name perm = route_write (mkdir_at perm) "mkdir" name

  unfoldable pub namespace_remove : Bytes → Bindings → sys.World → Result (Unit {0}) × sys.World
  namespace_remove name = route_write (λ target full. sys.remove target.fs full) "remove" name

  unfoldable pub rename_on :
      Bytes → Bytes → Bindings → BindTarget → Bytes → sys.World → Result (Unit {0}) × sys.World
  unfolding bind_path_of
  rename_on old new bindings target full w =
      let bind_path = bind_path_of target.fs (matching_targets old bindings) in
      sys.rename target.fs full (target_path bind_path target.path new) w

  unfoldable pub namespace_rename :
      Bytes → Bytes → Bindings → sys.World → Result (Unit {0}) × sys.World
  unfolding rename_on
  namespace_rename old new bindings = route_write (rename_on old new bindings) "rename" old bindings

  unfoldable pub namespace_chmod :
      Bytes → FileMode → Bindings → sys.World → Result (Unit {0}) × sys.World
  namespace_chmod name mode =
      route_write (λ target full. sys.chmod target.fs full mode) "chmod" name

  unfoldable pub namespace_chown :
      Bytes → ℕ → ℕ → Bindings → sys.World → Result (Unit {0}) × sys.World
  namespace_chown name uid gid =
      route_write (λ target full. sys.chown target.fs full uid gid) "chown" name

  unfoldable pub namespace_chtimes :
      Bytes → Time → Bindings → sys.World → Result (Unit {0}) × sys.World
  namespace_chtimes name mtime =
      route_write (λ target full. sys.chtimes target.fs full mtime) "chtimes" name

  unfoldable pub namespace_truncate :
      Bytes → ℕ → Bindings → sys.World → Result (Unit {0}) × sys.World
  namespace_truncate name size =
      route_write (λ target full. sys.truncate target.fs full size) "truncate" name

  unfoldable pub namespace_symlink :
      Bytes → Bytes → Bindings → sys.World → Result (Unit {0}) × sys.World
  namespace_symlink old new =
      route_write (λ target full. sys.symlink target.fs old full) "symlink" new

  unfoldable pub namespace_readlink : Bytes → Bindings → sys.World → Result Bytes × sys.World
  namespace_readlink name = route_write (λ target full. sys.readlink target.fs full) "readlink" name

  -- The `match` of `link`: an error that is passed over is kept as the last one.
  unfoldable pub after_link :
      (Error → sys.World → Result (Unit {0}) × sys.World)
      → Result (Unit {0}) × sys.World
      → Result (Unit {0}) × sys.World
  after_link next (ok u, w) = (ok tt, w)
  after_link next (err e, w) = if is_passed_over (kind_of e) then next e w else (err e, w)

  -- The loops over the targets of the old name, for one target of the new one.
  unfoldable pub link_old :
      (Error → sys.World → Result (Unit {0}) × sys.World)
      → BindTarget
      → Bytes
      → List (BindTarget × Bytes)
      → Error
      → sys.World
      → Result (Unit {0}) × sys.World
  unfolding after_link
  link_old next target full [] last w = next last w
  link_old next target full ((old_target, old_full) ∷ rest) last w =
      let later = link_old next target full rest in
      if old_target.fs == target.fs
      then after_link later (sys.link target.fs old_full full w)
      else later last w

  unfoldable pub link_new :
      List (BindTarget × Bytes)
      → List (BindTarget × Bytes)
      → Error
      → sys.World
      → Result (Unit {0}) × sys.World
  unfolding link_old
  link_new olds [] last w = (err last, w)
  link_new olds ((target, full) ∷ rest) last w =
      link_old (link_new olds rest) target full olds last w

  unfoldable pub namespace_link :
      Bytes → Bytes → Bindings → sys.World → Result (Unit {0}) × sys.World
  unfolding link_new
  namespace_link raw_old raw_new bindings w =
      let old = clean_path raw_old in
      let new = clean_path raw_new in
      if not (valid_path old) || not (valid_path new)
      then (err (Error.path "link" old ErrorKind.not_found), w)
      else link_new (matches old bindings) (matches new bindings)
          (Error.path "link" new ErrorKind.not_found) w
