-- ===== src/MetaCache/Keys.antt =====
-- The keys of the cache of crates/star9-fs/src/metacache.rs, and its `BTreeMap` as a list of entries.
-- Nothing that is modelled goes over the entries in their order.
use star.Base.{
  ◌≡◌, refl, ap, sym, ◌∙◌, subst, Bool, true, false, ◌&&◌, ◌||◌, List, [], ◌∷◌, ◌++◌, Bytes,
  bytes_eq, bytes_eq_iff, bytes_eq_refl, starts_with, Option, none, some, if◌then◌else◌, arith,
}
use star.Core.Path.{slash, dot}

pub data CacheKind : Type 0 where
  stat lstat read_dir : CacheKind

pub record CacheKey : Type 0 where
  pub path : Bytes
  pub kind : CacheKind

abbrev pub kind_eq : CacheKind → CacheKind → Bool
kind_eq CacheKind.stat CacheKind.stat = true
kind_eq CacheKind.lstat CacheKind.lstat = true
kind_eq CacheKind.read_dir CacheKind.read_dir = true
kind_eq _ _ = false

unfoldable pub key_eq : CacheKey → CacheKey → Bool
key_eq a b = bytes_eq a.path b.path && kind_eq a.kind b.kind

-- `key.path == path || (path == "." || key.path.starts_with(path + "/"))`
unfoldable pub same_or_below : Bytes → Bytes → Bool
same_or_below path other =
    bytes_eq other path || (bytes_eq path dot || starts_with (path ++ slash ∷ []) other)

abbrev pub Store {ℓ} : Type ℓ → Type ℓ
Store V = List (CacheKey × V)

module _ {ℓ} {V : Type ℓ} where
  unfoldable pub get : CacheKey → Store V → Option V
  get k [] = none
  get k ((j, v) ∷ t) = if key_eq j k then some v else get k t

  unfoldable pub remove : CacheKey → Store V → Store V
  remove k [] = []
  remove k ((j, v) ∷ t) = let rest = remove k t in if key_eq j k then rest else (j, v) ∷ rest

  unfoldable pub insert : CacheKey → V → Store V → Store V
  unfolding remove
  insert k v t = (k, v) ∷ remove k t

  unfoldable pub retain : (CacheKey → Bool) → Store V → Store V
  retain p [] = []
  retain p ((j, v) ∷ t) = let rest = retain p t in if p j then (j, v) ∷ rest else rest

kind_eq→eq : (a b : CacheKind) → kind_eq a b ≡ true → a ≡ b
kind_eq→eq CacheKind.stat CacheKind.stat h = refl
kind_eq→eq CacheKind.lstat CacheKind.lstat h = refl
kind_eq→eq CacheKind.read_dir CacheKind.read_dir h = refl
kind_eq→eq CacheKind.stat CacheKind.lstat h = cc
kind_eq→eq CacheKind.stat CacheKind.read_dir h = cc
kind_eq→eq CacheKind.lstat CacheKind.stat h = cc
kind_eq→eq CacheKind.lstat CacheKind.read_dir h = cc
kind_eq→eq CacheKind.read_dir CacheKind.stat h = cc
kind_eq→eq CacheKind.read_dir CacheKind.lstat h = cc

kind_eq_refl : (a : CacheKind) → kind_eq a a ≡ true
kind_eq_refl CacheKind.stat = refl
kind_eq_refl CacheKind.lstat = refl
kind_eq_refl CacheKind.read_dir = refl

pub key_eq→eq : (a b : CacheKey) → key_eq a b ≡ true → a ≡ b
unfolding key_eq
key_eq→eq a b h =
    let p : a.path ≡ b.path = (bytes_eq_iff a.path b.path).0 (ground arith) in
    let q : a.kind ≡ b.kind = kind_eq→eq a.kind b.kind (ground arith) in cc (p, q)

pub key_eq_refl : (a : CacheKey) → key_eq a a ≡ true
unfolding key_eq
key_eq_refl a = rw (bytes_eq_refl a.path, kind_eq_refl a.kind) refl

same : (i k j : CacheKey) → key_eq i k ≡ true → key_eq i j ≡ key_eq k j
same i k j h = ap (λ x. key_eq x j) (key_eq→eq i k h)

both : (i k j : CacheKey) → key_eq i j ≡ true → key_eq k j ≡ true → key_eq i k ≡ true
both i k j h e =
    subst (λ x. key_eq i x ≡ true) (key_eq→eq i j h ∙ sym (key_eq→eq k j e)) (key_eq_refl i)

module _ {ℓ} {V : Type ℓ} where
  pub get-remove :
      (k j : CacheKey) (t : Store V) → get j (remove k t) ≡ (if key_eq k j then none else get j t)
  unfolding get remove
  get-remove k j [] = ground arith
  get-remove k j ((i, w) ∷ t) =
      let rest = get-remove k j t in
      let one = same i k j in let two = both i k j in ground (arith, rest, one, two)

  pub get-insert :
      (k j : CacheKey) (v : V) (t : Store V)
      → get j (insert k v t) ≡ (if key_eq k j then some v else get j t)
  unfolding get insert
  get-insert k j v t = let rest = get-remove k j t in ground (arith, rest)

  pub get-retain :
      (p : CacheKey → Bool) (j : CacheKey) (t : Store V)
      → get j (retain p t) ≡ (if p j then get j t else none)
  unfolding get retain
  get-retain p j [] = ground arith
  get-retain p j ((i, w) ∷ t) =
      let rest = get-retain p j t in
      let eq : key_eq i j ≡ true → p i ≡ p j = λ h. ap p (key_eq→eq i j h) in
      ground (arith, rest, eq)
