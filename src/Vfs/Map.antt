-- ===== src/Vfs/Map.antt =====
-- `BTreeMap` with texts as keys: a list of entries in the order of their keys.
use star.Base.{
  ◌≡◌, refl, ap, sym, ◌∙◌, Bool, true, false, ◌&&◌, ◌||◌, ◌==◌, ltb, List, [], ◌∷◌, Bytes, bytes_eq,
  bytes_eq_iff, Option, none, some, if◌then◌else◌, arith,
}

-- The order of texts: bytewise, and a prefix first.
unfoldable pub bytes_lt : Bytes → Bytes → Bool
bytes_lt xs [] = false
bytes_lt [] (y ∷ ys) = true
bytes_lt (x ∷ xs) (y ∷ ys) = ltb x y || x == y && bytes_lt xs ys

abbrev pub Map {ℓ} : Type ℓ → Type ℓ
Map V = List (Bytes × V)

module _ {ℓ} {V : Type ℓ} where
  unfoldable pub lookup : Bytes → Map V → Option V
  lookup k [] = none
  lookup k ((j, v) ∷ t) = if bytes_eq j k then some v else lookup k t

  unfoldable pub put : Bytes → V → Map V → Map V
  put k v [] = (k, v) ∷ []
  put k v ((j, w) ∷ t) =
      let rest = put k v t in
      if bytes_eq j k
      then (k, v) ∷ t
      else if bytes_lt k j
      then (k, v) ∷ (j, w) ∷ t
      else (j, w) ∷ rest

  unfoldable pub delete : Bytes → Map V → Map V
  delete k [] = []
  delete k ((j, v) ∷ t) = let rest = delete k t in if bytes_eq j k then rest else (j, v) ∷ rest

  unfoldable pub keep_keys : (Bytes → Bool) → Map V → Map V
  keep_keys p [] = []
  keep_keys p ((j, v) ∷ t) = let rest = keep_keys p t in if p j then (j, v) ∷ rest else rest

eq_same : (i k j : Bytes) → bytes_eq i k ≡ true → bytes_eq i j ≡ bytes_eq k j
eq_same i k j h = ap (λ x. bytes_eq x j) ((bytes_eq_iff i k).0 h)

eq_both : (i k j : Bytes) → bytes_eq i j ≡ true → bytes_eq k j ≡ true → bytes_eq i k ≡ true
eq_both i k j h e = (bytes_eq_iff i k).1 ((bytes_eq_iff i j).0 h ∙ sym ((bytes_eq_iff k j).0 e))

module _ {ℓ} {V : Type ℓ} where
  pub lookup-put :
      (k j : Bytes) (v : V) (t : Map V)
      → lookup j (put k v t) ≡ (if bytes_eq k j then some v else lookup j t)
  unfolding lookup put
  lookup-put k j v [] = refl
  lookup-put k j v ((i, w) ∷ t) =
      let rest = lookup-put k j v t in
      let same = eq_same i k j in let both = eq_both i k j in ground (arith, rest, same, both)

  pub lookup-delete :
      (k j : Bytes) (t : Map V)
      → lookup j (delete k t) ≡ (if bytes_eq k j then none else lookup j t)
  unfolding lookup delete
  lookup-delete k j [] = ground arith
  lookup-delete k j ((i, w) ∷ t) =
      let rest = lookup-delete k j t in
      let same = eq_same i k j in let both = eq_both i k j in ground (arith, rest, same, both)
