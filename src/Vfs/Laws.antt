-- ===== src/Vfs/Laws.antt =====
-- What binding and unbinding do to the targets of a name, and where a name is looked for.
use star.Base.{
  ℕ, All, not, ◌&&◌, ◌==◌, bytes_eq_refl, ==_refl, ◌≡◌, ◌≢◌, refl, ap, sym, ◌∙◌, Bool, true, false,
  List, [], ◌∷◌, ◌++◌, Bytes, bytes_eq, bytes_eq_iff, Option, none, some, if◌then◌else◌, Bool-cases,
  inl, inr,
}
use star.Core.Error.{Result, ok}
use star.Core.Mode.{Metadata}
use star.Core.Path.{slash, dot, valid_path}
use star.Core.Path.Clean.{clean_path_valid}
use star.Core.Path.Child.{below-valid}
use star.Core.Path.Parts.{strip_dir-child, longer, bytes_ne}
use star.Vfs.Map.{lookup, put, delete, lookup-put, lookup-delete}
use star.Vfs.Bindings.{
  BindMode, BindTarget, Bindings, targets_at, bind_target, bind_found, bind, unbind, retain,
  keep_targets, unbind_path, under_target, target_path,
}

-- The place of a new target among those that are there.
abbrev with_target : BindMode → BindTarget → List BindTarget → List BindTarget
with_target BindMode.after target targets = target ∷ targets
with_target BindMode.before target targets = targets ++ target ∷ []
with_target BindMode.replace target targets = target ∷ []

targets_of : Option (List BindTarget) → List BindTarget
targets_of none = []
targets_of (some targets) = targets

targets_at-lookup : (k : Bytes) (b : Bindings) → targets_at k b ≡ targets_of (lookup k b)
unfolding targets_at targets_of
targets_at-lookup k b = refl

targets_of-if :
    (c : Bool) (ts : List BindTarget) (o : Option (List BindTarget))
    → targets_of (if c then some ts else o) ≡ (if c then ts else targets_of o)
unfolding targets_of
targets_of-if true ts o = refl
targets_of-if false ts o = refl

targets_of-none :
    (c : Bool) (o : Option (List BindTarget))
    → targets_of (if c then none else o) ≡ (if c then [] else targets_of o)
unfolding targets_of
targets_of-none true o = refl
targets_of-none false o = refl

targets_at-put :
    (k j : Bytes) (ts : List BindTarget) (b : Bindings)
    → targets_at j (put k ts b) ≡ (if bytes_eq k j then ts else targets_at j b)
targets_at-put k j ts b =
    rw (targets_at-lookup, targets_at-lookup, lookup-put)
      (targets_of-if (bytes_eq k j) ts (lookup j b))

targets_at-bind_target :
    (k j : Bytes) (target : BindTarget) (mode : BindMode) (b : Bindings)
    → targets_at j (bind_target k target mode b)
      ≡ (if bytes_eq k j then with_target mode target (targets_at k b) else targets_at j b)
unfolding bind_target
targets_at-bind_target k j target BindMode.after b = targets_at-put k j _ b
targets_at-bind_target k j target BindMode.before b = targets_at-put k j _ b
targets_at-bind_target k j target BindMode.replace b = targets_at-put k j _ b

targets_at-keep_targets :
    (dst j : Bytes) (ts : List BindTarget) (b : Bindings)
    → targets_at j (keep_targets dst ts b) ≡ (if bytes_eq dst j then ts else targets_at j b)
unfolding keep_targets
targets_at-keep_targets dst j [] b =
    rw (targets_at-lookup, targets_at-lookup, lookup-delete)
      (targets_of-none (bytes_eq dst j) (lookup j b))
targets_at-keep_targets dst j (t ∷ ts) b = targets_at-put dst j (t ∷ ts) b

-- The test of `unbind`, for a clean path.
abbrev pub is_other : ℕ → Bytes → BindTarget → Bool
is_other src path target = not (target.fs == src && bytes_eq target.path path)

retain-others :
    (p : BindTarget → Bool) (ts : List BindTarget) → All (λ t. p t ≡ true) ts → retain p ts ≡ ts
unfolding retain
retain-others p [] h = refl
retain-others p (t ∷ ts) (h, hs) = rw (h, retain-others p ts hs) refl

retain-last :
    (p : BindTarget → Bool) (t : BindTarget) (ts : List BindTarget)
    → p t ≡ false
    → All (λ u. p u ≡ true) ts
    → retain p (ts ++ t ∷ []) ≡ ts
unfolding retain
retain-last p t [] e h = rw e refl
retain-last p t (u ∷ ts) e (h, hs) = rw (h, retain-last p t ts e hs) refl

retain-with_target :
    (p : BindTarget → Bool) (mode : BindMode) (t : BindTarget) (ts : List BindTarget)
    → mode ≢ BindMode.replace
    → p t ≡ false
    → All (λ u. p u ≡ true) ts
    → retain p (with_target mode t ts) ≡ ts
unfolding retain
retain-with_target p BindMode.after t ts n e h = rw e (retain-others p ts h)
retain-with_target p BindMode.before t ts n e h = retain-last p t ts e h
retain-with_target p BindMode.replace t ts n e h = absurd (n refl)

-- A path below a directory.
abbrev pub below : Bytes → Bytes → Bytes
below base rel = if bytes_eq base dot then rel else base ++ slash ∷ rel

clean_path-below :
    (base rel : Bytes)
    → valid_path base ≡ true
    → valid_path rel ≡ true
    → rel ≢ dot
    → under_target base rel ≡ below base rel
unfolding under_target
clean_path-below base rel v w m = elim (Bool-cases (bytes_eq base dot)) [
  | inl e ↦ rw e (clean_path_valid rel w)
  | inr e ↦
      let n : base ≢ dot = λ d. let q = (bytes_eq_iff base dot).1 d in absurd (cc (q, e)) in
      rw e (clean_path_valid _ (below-valid base rel v n w m))
]

-- A valid name other than "." below a binding is looked for at the same place below the binding's
-- target, if that is a valid path.
pub target_path-below :
    (bind_path target rel : Bytes)
    → valid_path target ≡ true
    → valid_path rel ≡ true
    → rel ≢ dot
    → target_path bind_path target (below bind_path rel) ≡ below target rel
unfolding target_path
target_path-below bind_path target rel v w m = elim (Bool-cases (bytes_eq bind_path dot)) [
  | inl e ↦
      rw (e, bytes_ne bind_path rel (λ q. m (sym q ∙ (bytes_eq_iff bind_path dot).0 e)))
        (clean_path-below target rel v w m)
  | inr e ↦
      rw (e, bytes_ne _ _ (longer bind_path rel), strip_dir-child bind_path rel)
        (clean_path-below target rel v w m)
]

-- `unbind_path` takes the binding that is at a valid path away, with all its targets, and no other.
lookup-unbind_path :
    (dst j : Bytes) (b : Bindings) {targets : List BindTarget}
    → valid_path dst ≡ true
    → lookup dst b ≡ some targets
    → ((unbind_path dst b).0 ≡ ok tt)
      × (lookup j (unbind_path dst b).1 ≡ (if bytes_eq dst j then none else lookup j b))
unfolding unbind_path
lookup-unbind_path dst j b v h =
    let clean = clean_path_valid dst v in
    rw (v, clean, h) (refl, ap (λ d. lookup j (delete d b)) clean ∙ lookup-delete dst j b)

lookup-bind_target :
    (k : Bytes) (target : BindTarget) (mode : BindMode) (b : Bindings)
    → lookup k (bind_target k target mode b) ≡ some (with_target mode target (targets_at k b))
unfolding bind_target
lookup-bind_target k target BindMode.after b = rw (lookup-put, bytes_eq_refl k) refl
lookup-bind_target k target BindMode.before b = rw (lookup-put, bytes_eq_refl k) refl
lookup-bind_target k target BindMode.replace b = rw (lookup-put, bytes_eq_refl k) refl

taken_back :
    (dst j : Bytes) (p : BindTarget → Bool) (t : BindTarget) (mode : BindMode) (b : Bindings)
    → mode ≢ BindMode.replace
    → p t ≡ false
    → All (λ u. p u ≡ true) (targets_at dst b)
    → targets_at j (
        keep_targets dst
          (retain p (with_target mode t (targets_at dst b)))
          (bind_target dst t mode b))
      ≡ targets_at j b
taken_back dst j p t mode b n e h =
    targets_at-keep_targets dst j _ (bind_target dst t mode b)
    ∙ elim (Bool-cases (bytes_eq dst j)) [
      | inl d ↦
          rw (d, retain-with_target p mode t (targets_at dst b) n e h)
            (ap (λ k. targets_at k b) ((bytes_eq_iff dst j).0 d))
      | inr d ↦ rw (d, targets_at-bind_target dst j t mode b, d) refl
    ]

bind-bound :
    {W : Type 0} (stat : ℕ → Bytes → W → Result Metadata × W) (src : ℕ) (src_path dst_path : Bytes)
    (mode : BindMode) (b : Bindings) (w w' : W) (meta : Metadata)
    → valid_path src_path ≡ true
    → valid_path dst_path ≡ true
    → stat src src_path w ≡ (ok meta, w')
    → (bind stat src src_path dst_path mode b w).1
      ≡ bind_target dst_path (record { fs = src; path = src_path; metadata = meta }) mode b
unfolding bind bind_found
bind-bound stat src src_path dst_path mode b w w' meta hs hd h =
    rw (hs, hd, clean_path_valid src_path hs, clean_path_valid dst_path hd, h) refl

unbind-bound :
    (src : ℕ) (src_path dst_path : Bytes) (b : Bindings) {ts : List BindTarget}
    → valid_path src_path ≡ true
    → valid_path dst_path ≡ true
    → lookup dst_path b ≡ some ts
    → (unbind src src_path dst_path b).1
      ≡ keep_targets dst_path (retain (is_other src src_path) ts) b
unfolding unbind
unbind-bound src src_path dst_path b hs hd h =
    let cd = clean_path_valid dst_path hd in
    rw (hs, hd, cd, h, cd, clean_path_valid src_path hs) refl

-- An `unbind` takes back a `bind` that succeeded and did not replace, if that target was not there
-- before: every name has the targets that it had, in their order.
pub unbind-bind :
    {W : Type 0} (stat : ℕ → Bytes → W → Result Metadata × W) (src : ℕ)
    (src_path dst_path j : Bytes) (mode : BindMode) (b : Bindings) (w w' : W) (meta : Metadata)
    → valid_path src_path ≡ true
    → valid_path dst_path ≡ true
    → stat src src_path w ≡ (ok meta, w')
    → mode ≢ BindMode.replace
    → All (λ target. is_other src src_path target ≡ true) (targets_at dst_path b)
    → targets_at j (unbind src src_path dst_path (bind stat src src_path dst_path mode b w).1).1
      ≡ targets_at j b
unbind-bind stat src src_path dst_path j mode b w w' meta hs hd h n others =
    let target : BindTarget = record { fs = src; path = src_path; metadata = meta } in
    ap (λ b'. targets_at j (unbind src src_path dst_path b').1)
      (bind-bound stat src src_path dst_path mode b w w' meta hs hd h)
    ∙ ap (targets_at j) (
        unbind-bound src src_path dst_path (bind_target dst_path target mode b) hs hd
          (lookup-bind_target dst_path target mode b))
    ∙ taken_back dst_path j (is_other src src_path) target mode b n
        (rw (==_refl src, bytes_eq_refl src_path) refl) others
