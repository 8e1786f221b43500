-- ===== src/Vfs/Found.antt =====
-- Which target of a namespace of crates/star9-vfs/src/lib.rs a file is opened in.
use star.Base.{◌≡◌, true, Bytes}
use star.Core.Error.{Error, err, kind_of, is_not_found}
use star.Core.Context.{FsContext}
use star.Vfs.Bindings.{BindTarget, Bindings}
use star.Vfs.Systems.{Systems}

module _ (sys : Systems) where
  -- A target at which, in state `w`, there is nothing.
  abbrev pub Absent : FsContext → sys.World → BindTarget × Bytes → Type 0
  Absent ctx w (target, full) =
      (e : Error) × (sys.stat target.fs ctx full w ≡ (err e, w)) × (is_not_found (kind_of e) ≡ true)
