-- ===== src/Vfs/Route.antt =====
-- `route_write` of crates/star9-vfs/src/lib.rs: the targets that an operation is tried on, in turn.
-- The operation is a parameter: it takes a target, the path in it, and the state of all file systems.
use star.Base.{
  ◌≡◌, refl, ap, sym, ◌∙◌, append-nil, true, false, List, [], ◌∷◌, ◌++◌, Bytes, All, Option, none,
  some, if◌then◌else◌, String,
}
use star.Core.Error.{Error, ErrorKind, Result, ok, err, kind_of, is_not_supported, is_passed_over}
use star.Core.Path.{clean_path}
use star.Vfs.Map.{lookup}
use star.Vfs.Bindings.{BindTarget, Bindings, matching_targets, target_path}

-- The targets of one binding, each with the path that the name has there.
unfoldable pub at_targets : Bytes → Bytes → List BindTarget → List (BindTarget × Bytes)
at_targets bind_path name [] = []
at_targets bind_path name (target ∷ targets) =
    (target, target_path bind_path target.path name) ∷ at_targets bind_path name targets

-- The two loops over the matching targets, as one list.
unfoldable pub candidates : Bytes → List (Bytes × List BindTarget) → List (BindTarget × Bytes)
unfolding at_targets
candidates name [] = []
candidates name ((bind_path, targets) ∷ rest) =
    at_targets bind_path name targets ++ candidates name rest

-- A result at which the loop over the matching targets stops.
abbrev pub IsFinal : {T : Type 0} → Result T → Type 0
IsFinal (ok v) = Unit
IsFinal (err e) = is_passed_over (kind_of e) ≡ false

module _ {W T : Type 0} where
  -- The `match` of the loop over the direct targets: only `NotSupported` goes on.
  unfoldable pub after_direct : (Error → W → Result T × W) → Result T × W → Result T × W
  after_direct next (ok v, w) = (ok v, w)
  after_direct next (err e, w) = if is_not_supported (kind_of e) then next e w else (err e, w)

  -- The `match` of the loop over the matching targets.
  unfoldable pub after_matching : (W → Result T × W) → Result T × W → Result T × W
  after_matching next (ok v, w) = (ok v, w)
  after_matching next (err e, w) = if is_passed_over (kind_of e) then next w else (err e, w)

  final_stops :
      (next : W → Result T × W) (r : Result T × W) → IsFinal r.0 → after_matching next r ≡ r
  unfolding after_matching
  final_stops next (ok v, w) k = refl
  final_stops next (err e, w) k = rw k refl

module _ {W T : Type 0} (f : BindTarget → Bytes → W → Result T × W) where
  unfoldable pub route_direct : Error → List BindTarget → W → Result T × W
  unfolding after_direct
  route_direct last [] w = (err last, w)
  route_direct last (target ∷ targets) w =
      after_direct (λ e w'. route_direct e targets w') (f target target.path w)

  unfoldable pub route_matching : Error → List (BindTarget × Bytes) → W → Result T × W
  unfolding after_matching
  route_matching missing [] w = (err missing, w)
  route_matching missing ((target, full) ∷ rest) w =
      after_matching (route_matching missing rest) (f target full w)

  -- The targets at the name itself, if it is a binding, and the matching ones otherwise.
  unfoldable pub route_found :
      String → Bytes → Bindings → Option (List BindTarget) → W → Result T × W
  unfolding route_direct route_matching candidates
  route_found op name bindings (some targets) w =
      route_direct (Error.kind ErrorKind.not_supported) targets w
  route_found op name bindings none w =
      route_matching (Error.path op name ErrorKind.not_found)
        (candidates name (matching_targets name bindings)) w

  unfoldable pub route_write : String → Bytes → Bindings → W → Result T × W
  unfolding route_found
  route_write op raw bindings w =
      let name = clean_path raw in route_found op name bindings (lookup name bindings) w

  -- An operation that a target refuses in state `w`, with an error that the loop passes over.
  abbrev pub Refused : W → BindTarget × Bytes → Type 0
  Refused w (target, full) =
      (e : Error) × (f target full w ≡ (err e, w)) × (is_passed_over (kind_of e) ≡ true)

  route_matching-Refused :
      (missing : Error) (before after : List (BindTarget × Bytes)) (w : W)
      → All (Refused w) before
      → route_matching missing (before ++ after) w ≡ route_matching missing after w
  unfolding route_matching after_matching
  route_matching-Refused missing [] after w h = refl
  route_matching-Refused missing ((target, full) ∷ before) after w ((e, q, p), h) =
      rw (q, p) (route_matching-Refused missing before after w h)

  route_write_unbound :
      (op : String) (raw : Bytes) (bindings : Bindings) (w : W)
      → lookup (clean_path raw) bindings ≡ none
      → route_write op raw bindings w
        ≡ route_matching
            (Error.path op (clean_path raw) ErrorKind.not_found)
            (candidates (clean_path raw) (matching_targets (clean_path raw) bindings))
            w
  unfolding route_write route_found
  route_write_unbound op raw bindings w n = ap (λ o. route_found op (clean_path raw) bindings o w) n

  -- For a name that is not a binding itself, `route_write` returns what the first target that does
  -- not refuse the operation returns, if the targets before it change nothing: its value, or its
  -- error if that is not one that is passed over.
  pub route_write-Refused :
      (op : String) (raw : Bytes) (bindings : Bindings) (w : W)
      (before after : List (BindTarget × Bytes)) (target : BindTarget) (full : Bytes)
      → lookup (clean_path raw) bindings ≡ none
      → candidates (clean_path raw) (matching_targets (clean_path raw) bindings)
        ≡ before ++ (target, full) ∷ after
      → All (Refused w) before
      → IsFinal (f target full w).0
      → route_write op raw bindings w ≡ f target full w
  unfolding route_matching
  route_write-Refused op raw bindings w before after target full n c h k =
      let missing = Error.path op (clean_path raw) ErrorKind.not_found in
      route_write_unbound op raw bindings w n
      ∙ ap (λ l. route_matching missing l w) c
      ∙ route_matching-Refused missing before ((target, full) ∷ after) w h
      ∙ final_stops (route_matching missing after) (f target full w) k

  -- For a name that is not a binding itself, an operation that every target refuses, with an error that
  -- is passed over and without a change, is reported as a name that is not there, and changes nothing.
  pub route_write_missing :
      (op : String) (raw : Bytes) (bindings : Bindings) (w : W)
      → lookup (clean_path raw) bindings ≡ none
      → All (Refused w) (candidates (clean_path raw) (matching_targets (clean_path raw) bindings))
      → route_write op raw bindings w
        ≡ (err (Error.path op (clean_path raw) ErrorKind.not_found), w)
  unfolding route_matching
  route_write_missing op raw bindings w n h =
      let cs = candidates (clean_path raw) (matching_targets (clean_path raw) bindings) in
      let missing = Error.path op (clean_path raw) ErrorKind.not_found in
      route_write_unbound op raw bindings w n
      ∙ ap (λ l. route_matching missing l w) (sym (append-nil cs))
      ∙ route_matching-Refused missing cs [] w h
