-- ===== src/Vfs/Lookup.antt =====
-- `stat` and `open` of the namespace of crates/star9-vfs/src/lib.rs.
use star.Base.{
  Bool, true, false, not, ◌||◌, List, [], ◌∷◌, ◌++◌, Bytes, bytes_eq, codes, Option, none, some,
  if◌then◌else◌,
}
use star.Core.Error.{Error, ErrorKind, Result, ok, err, kind_of, is_not_found}
use star.Core.Mode.{Metadata, DirEntry, dir_metadata, is_dir}
use star.Core.Context.{FsContext, with_origin}
use star.Core.Path.{dot, clean_path, valid_path, base_name}
use star.Vfs.Map.{lookup}
use star.Vfs.Bindings.{BindTarget, Bindings, matching_targets}
use star.Vfs.Route.{candidates}
use star.Vfs.Systems.{Systems}
use star.Vfs.Entries.{or_bound, synthesize_entries}

-- What is opened: a file of a target, or a list of entries (`directory_file`).
pub data Opened (F : Type 0) : Type 0 where
  file : F → Opened F
  directory : Metadata → List DirEntry → Opened F

unfoldable pub as_file : {F W : Type 0} → Result F × W → Result (Opened F) × W
as_file (ok f, w) = (ok (file f), w)
as_file (err e, w) = (err e, w)

-- `dir_meta` and `entries`
pub record Listing : Type 0 where
  pub dir_meta : Option Metadata
  pub entries : List DirEntry

unfoldable pub or_first : Option Metadata → Metadata → Metadata
or_first none meta = meta
or_first (some first) meta = first

unfoldable pub is_some : Option Metadata → Bool
is_some none = false
is_some (some meta) = true

unfoldable pub no_entries : List DirEntry → Bool
no_entries [] = true
no_entries (entry ∷ entries) = false

-- The bindings but for the one at the name itself, which the loops pass over.
unfoldable pub without : Bytes → List (Bytes × List BindTarget) → List (Bytes × List BindTarget)
without name [] = []
without name ((path, targets) ∷ rest) =
    let others = without name rest in
    if bytes_eq path name then others else (path, targets) ∷ others

abbrev pub others : Bytes → Bindings → List (BindTarget × Bytes)
others name bindings = candidates name (without name (matching_targets name bindings))

-- The targets of the name itself, if it is a binding.
unfoldable pub direct_targets : Bytes → Bindings → List BindTarget
direct_targets name bindings = elim (lookup name bindings) [ none ↦ [] | some targets ↦ targets ]

module _ (sys : Systems) (ctx : FsContext) where
  -- A rest of the search, from what was listed so far.
  abbrev pub Next : Type 0
  Next = Listing → sys.World → Result (Opened sys.File) × sys.World

  unfoldable pub add_listed :
      Next
      → Metadata
      → Listing
      → Result (List DirEntry) × sys.World
      → Result (Opened sys.File) × sys.World
  unfolding or_first
  add_listed next meta l (err e, w) = (err e, w)
  add_listed next meta l (ok more, w) =
      next (record { dir_meta = some (or_first l.dir_meta meta); entries = l.entries ++ more }) w

  -- A directory is listed and the search goes on; anything else is opened.
  unfoldable pub visit :
      Next
      → BindTarget
      → Bytes
      → Metadata
      → Listing
      → sys.World
      → Result (Opened sys.File) × sys.World
  unfolding add_listed as_file
  visit next target full meta l w =
      if is_dir meta.mode
      then add_listed next meta l (sys.read_dir target.fs ctx full w)
      else as_file (sys.opened target.fs ctx full w)

  unfoldable pub open_direct : Next → List BindTarget → Next
  unfolding visit or_bound
  open_direct next [] l w = next l w
  open_direct next (target ∷ targets) l w =
      let (r, w') = sys.stat target.fs ctx target.path w in
      visit (open_direct next targets) target target.path (or_bound target r) l w'

  -- The `match` on the `stat` of a matching target.
  unfoldable pub open_found :
      Next
      → BindTarget
      → Bytes
      → Listing
      → Result Metadata × sys.World
      → Result (Opened sys.File) × sys.World
  unfolding visit
  open_found next target full l (ok meta, w) = visit next target full meta l w
  open_found next target full l (err e, w) =
      if is_not_found (kind_of e) then next l w else (err e, w)

  unfoldable pub open_matching : Next → List (BindTarget × Bytes) → Next
  unfolding open_found
  open_matching next [] l w = next l w
  open_matching next ((target, full) ∷ rest) l w =
      open_found (open_matching next rest) target full l (sys.stat target.fs ctx full w)

  -- What the loops end in.
  unfoldable pub open_listed : Bytes → Bindings → Next
  unfolding synthesize_entries no_entries is_some or_first
  open_listed name bindings l w =
      let (made, w') = synthesize_entries sys ctx name bindings w in
      let entries = l.entries ++ made in
      if not (no_entries entries) || is_some l.dir_meta || bytes_eq name dot
      then (ok (directory (or_first l.dir_meta (dir_metadata (base_name name) 0o755)) entries), w')
      else (err (Error.path "open" name ErrorKind.not_found), w')

  unfoldable pub stat_direct :
      Bytes
      → (sys.World → Result Metadata × sys.World)
      → List BindTarget
      → sys.World
      → Result Metadata × sys.World
  stat_direct name next [] w = next w
  stat_direct name next (target ∷ targets) w =
      let (r, w') = sys.stat target.fs ctx target.path w in
      elim r [
        | ok meta ↦ (ok (record meta { name = base_name name }), w')
        | err e ↦ stat_direct name next targets w'
      ]

  unfoldable pub stat_found :
      Bytes
      → (sys.World → Result Metadata × sys.World)
      → Result Metadata × sys.World
      → Result Metadata × sys.World
  stat_found name next (ok meta, w) = (ok (record meta { name = base_name name }), w)
  stat_found name next (err e, w) = if is_not_found (kind_of e) then next w else (err e, w)

  unfoldable pub stat_matching :
      Bytes
      → (sys.World → Result Metadata × sys.World)
      → List (BindTarget × Bytes)
      → sys.World
      → Result Metadata × sys.World
  unfolding stat_found
  stat_matching name next [] w = next w
  stat_matching name next ((target, full) ∷ rest) w =
      stat_found name (stat_matching name next rest) (sys.stat target.fs ctx full w)

  unfoldable pub stat_made : Bytes → Bindings → sys.World → Result Metadata × sys.World
  unfolding synthesize_entries no_entries
  stat_made name bindings w =
      let (made, w') = synthesize_entries sys ctx name bindings w in
      if no_entries made
      then (err (Error.path "stat" name ErrorKind.not_found), w')
      else (ok (dir_metadata (base_name name) 0o755), w')

module _ (sys : Systems) where
  unfoldable pub namespace_open :
      FsContext → Bytes → Bindings → sys.World → Result (Opened sys.File) × sys.World
  unfolding open_direct open_matching open_listed direct_targets without
  namespace_open raw_ctx raw bindings w =
      let ctx = with_origin raw_ctx raw (codes "open") in
      let name = clean_path raw in
      let listed = open_listed sys ctx name bindings in
      if not (valid_path raw)
      then (err (Error.path "open" raw ErrorKind.not_found), w)
      else open_direct sys ctx (open_matching sys ctx listed (others name bindings))
          (direct_targets name bindings) (record { dir_meta = none; entries = [] }) w

  unfoldable pub namespace_stat :
      FsContext → Bytes → Bindings → sys.World → Result Metadata × sys.World
  unfolding stat_direct stat_matching stat_made direct_targets without
  namespace_stat raw_ctx raw bindings w =
      let ctx = with_origin raw_ctx raw (codes "stat") in
      let name = clean_path raw in
      if not (valid_path raw)
      then (err (Error.path "stat" raw ErrorKind.not_found), w)
      else if bytes_eq name dot
      then (ok (dir_metadata dot 0o755), w)
      else stat_direct sys ctx name
          (stat_matching sys ctx name (stat_made sys ctx name bindings) (others name bindings))
          (direct_targets name bindings) w
