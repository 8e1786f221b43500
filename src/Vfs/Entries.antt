-- ===== src/Vfs/Entries.antt =====
-- `synthesize_entries` of crates/star9-vfs/src/lib.rs: the entries that a namespace makes up for the
-- bindings below a name.
use star.Base.{◌==◌, List, [], ◌∷◌, ◌++◌, Bytes, bytes_eq, Option, none, some, if◌then◌else◌}
use star.Core.Error.{Result, ok, err}
use star.Core.Mode.{Metadata, DirEntry, dir_metadata}
use star.Core.Context.{FsContext}
use star.Core.Path.{slash, dot, strip_prefix}
use star.Vfs.Map.{Map, put, delete}
use star.Vfs.Bindings.{BindTarget, Bindings}
use star.Vfs.Systems.{Systems}

-- `split_once('/')`, of which only the part before the slash is used.
unfoldable pub before_slash : Bytes → Option Bytes
before_slash [] = none
before_slash (c ∷ cs) =
    let rest = before_slash cs in
    if c == slash then some [] else elim rest [ none ↦ none | some head ↦ some (c ∷ head) ]

-- What is left of a bound path below a name.
unfoldable pub path_below : Bytes → Bytes → Option Bytes
path_below name path =
    if bytes_eq name dot
    then if bytes_eq path dot then none else some path
    else strip_prefix (name ++ slash ∷ []) path

-- `unwrap_or_else(|_| target.metadata.clone())`
unfoldable pub or_bound : BindTarget → Result Metadata → Metadata
or_bound target (ok meta) = meta
or_bound target (err e) = target.metadata

-- `need.remove(&entry.name)`
unfoldable pub drop_named : List DirEntry → Map (Unit {0}) → Map (Unit {0})
drop_named [] need = need
drop_named (entry ∷ entries) need = drop_named entries (delete entry.name need)

unfoldable pub dirs_of : Map (Unit {0}) → List DirEntry
dirs_of [] = []
dirs_of ((dir, u) ∷ need) = record { name = dir; metadata = dir_metadata dir 0o755 } ∷ dirs_of need

module _ (sys : Systems) (ctx : FsContext) where
  unfoldable pub entries_at : Bytes → List BindTarget → sys.World → List DirEntry × sys.World
  unfolding or_bound
  entries_at rest [] w = ([], w)
  entries_at rest (target ∷ targets) w =
      let (r, w1) = sys.stat target.fs ctx target.path w in
      let (more, w2) = entries_at rest targets w1 in
      let meta = record (or_bound target r) { name = rest } in
      (record { name = rest; metadata = meta } ∷ more, w2)

  -- A path that goes on below asks for a directory, and one that ends for an entry per target.
  unfoldable pub add_binding :
      List BindTarget
      → Option Bytes
      → List DirEntry × Map (Unit {0}) × sys.World
      → List DirEntry × Map (Unit {0}) × sys.World
  unfolding entries_at
  add_binding targets none (entries, need, w) = (entries, need, w)
  add_binding targets (some rest) (entries, need, w) =
      let (more, w') = entries_at rest targets w in
      elim (before_slash rest) [
        | some head ↦ (entries, put head tt need, w)
        | none ↦ (entries ++ more, need, w')
      ]

  unfoldable pub add_bindings :
      Bytes
      → Bindings
      → List DirEntry × Map (Unit {0}) × sys.World
      → List DirEntry × Map (Unit {0}) × sys.World
  unfolding add_binding path_below
  add_bindings name [] acc = acc
  add_bindings name ((path, targets) ∷ bindings) acc =
      add_bindings name bindings (add_binding targets (path_below name path) acc)

  unfoldable pub synthesize_entries : Bytes → Bindings → sys.World → List DirEntry × sys.World
  unfolding add_bindings drop_named dirs_of
  synthesize_entries name bindings w =
      let (entries, need, w') = add_bindings name bindings ([], [], w) in
      (entries ++ dirs_of (drop_named entries need), w')
