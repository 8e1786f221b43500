-- ===== src/Core/Path/Segments.antt =====
-- `split` and `join` undo one another on segments that hold no slash.
use star.Base.{
  ℕ, ◌≡◌, refl, ap, ◌∙◌, ◌≢◌, Bool, false, ◌||◌, List, [], ◌∷◌, ◌++◌, Bytes, All, arith, ◌==◌,
  ==_iff, Bool-cases, inl, inr,
}
use star.Core.Path.{slash, split, join, cons_head}

unfoldable pub has_slash : Bytes → Bool
has_slash [] = false
has_slash (c ∷ cs) = c == slash || has_slash cs

abbrev pub NoSlash : Bytes → Type 0
NoSlash s = has_slash s ≡ false

pub split-ne-nil : (p : Bytes) → split p ≢ []
unfolding split
split-ne-nil [] e = cc
split-ne-nil (c ∷ cs) e = ground (arith, split-ne-nil cs)

pub All-split : (p : Bytes) → All NoSlash (split p)
unfolding split has_slash
All-split [] = (refl, tt)
All-split (c ∷ cs) = ground (arith, All-split cs)

join_empty : (ps : List Bytes) → ps ≢ [] → join ([] ∷ ps) ≡ slash ∷ join ps
unfolding join
join_empty [] n = absurd (n refl)
join_empty (p ∷ ps) n = refl

join-cons_head : (c : ℕ) (ps : List Bytes) → ps ≢ [] → join (cons_head c ps) ≡ c ∷ join ps
unfolding join
join-cons_head c [] n = absurd (n refl)
join-cons_head c (p ∷ []) n = refl
join-cons_head c (p ∷ q ∷ ps) n = refl

pub join-split : (p : Bytes) → join (split p) ≡ p
unfolding split
join-split [] = unfold join in refl
join-split (c ∷ cs) = elim (Bool-cases (c == slash)) [
  | inl e ↦ rw e (cc (join_empty (split cs) (split-ne-nil cs), join-split cs, (==_iff c slash).0 e))
  | inr e ↦ rw e (cc (join-cons_head c (split cs) (split-ne-nil cs), join-split cs))
]

pub split_segment : (s : Bytes) → NoSlash s → split s ≡ s ∷ []
unfolding split has_slash
split_segment [] h = refl
split_segment (c ∷ cs) h = ground (arith, split_segment cs)

split_behind : (s rest : Bytes) → NoSlash s → split (s ++ slash ∷ rest) ≡ s ∷ split rest
unfolding split has_slash
split_behind [] rest h = refl
split_behind (c ∷ cs) rest h = ground (arith, split_behind cs rest)

pub split-join : (ps : List Bytes) → ps ≢ [] → All NoSlash ps → split (join ps) ≡ ps
unfolding join
split-join [] n h = absurd (n refl)
split-join (p ∷ []) n h = split_segment p h.0
split-join (p ∷ q ∷ ps) n h =
    split_behind p (join (q ∷ ps)) h.0 ∙ ap (λ l. p ∷ l) (split-join (q ∷ ps) (λ e. cc) h.1)
