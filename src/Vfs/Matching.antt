-- ===== src/Vfs/Matching.antt =====
-- The bindings that `matching_targets` of crates/star9-vfs/src/lib.rs finds, and their order.
use star.Base.{ℕ, ◌≤◌, leb, length, List, [], ◌∷◌, Bytes, All, arith, Bool-cases, inl, inr}
use mathlib.Core.List.{Perm}
use mathlib.Core.List.Perm
use star.Vfs.Map.{keep_keys}
use star.Vfs.Bindings.{BindTarget, Bindings, is_match, insert_by_len, sort_by_len, matching_targets}

-- No path is longer than `n`.
abbrev pub NotLonger : ℕ → List (Bytes × List BindTarget) → Type 0
NotLonger n entries = All (λ entry. length entry.0 ≤ n) entries

-- The paths come in the order of their lengths, the longest first.
abbrev pub IsByLen : List (Bytes × List BindTarget) → Type 0
IsByLen [] = Unit
IsByLen (entry ∷ entries) = NotLonger (length entry.0) entries × IsByLen entries

NotLonger-weaken :
    (n m : ℕ) (entries : List (Bytes × List BindTarget))
    → n ≤ m
    → NotLonger n entries
    → NotLonger m entries
NotLonger-weaken n m [] h k = tt
NotLonger-weaken n m (entry ∷ entries) h k =
    (omega (arith, k.0, h), NotLonger-weaken n m entries h k.1)

NotLonger-insert_by_len :
    (n : ℕ) (entry : Bytes × List BindTarget) (entries : List (Bytes × List BindTarget))
    → length entry.0 ≤ n
    → NotLonger n entries
    → NotLonger n (insert_by_len entry entries)
unfolding insert_by_len
NotLonger-insert_by_len n (p, ts) [] h k = (h, tt)
NotLonger-insert_by_len n (p, ts) ((q, us) ∷ rest) h k =
    elim (Bool-cases (leb (length q) (length p))) [
      | inl e ↦ rw e (h, k)
      | inr e ↦ rw e (k.0, NotLonger-insert_by_len n (p, ts) rest h k.1)
    ]

IsByLen-insert_by_len :
    (entry : Bytes × List BindTarget) (entries : List (Bytes × List BindTarget))
    → IsByLen entries
    → IsByLen (insert_by_len entry entries)
unfolding insert_by_len
IsByLen-insert_by_len (p, ts) [] h = (tt, tt)
IsByLen-insert_by_len (p, ts) ((q, us) ∷ rest) h = elim (Bool-cases (leb (length q) (length p))) [
  | inl e ↦
      let le : length q ≤ length p = ground (arith, e) in
      rw e ((le, NotLonger-weaken (length q) (length p) rest le h.0), h)
  | inr e ↦
      let le : length p ≤ length q = ground (arith, e) in
      rw e (
        NotLonger-insert_by_len (length q) (p, ts) rest le h.0,
        IsByLen-insert_by_len (p, ts) rest h.1,
      )
]

sort_by_len-IsByLen : (entries : List (Bytes × List BindTarget)) → IsByLen (sort_by_len entries)
unfolding sort_by_len
sort_by_len-IsByLen [] = tt
sort_by_len-IsByLen (entry ∷ entries) =
    IsByLen-insert_by_len entry (sort_by_len entries) (sort_by_len-IsByLen entries)

insert_by_len-Perm :
    (entry : Bytes × List BindTarget) (entries : List (Bytes × List BindTarget))
    → Perm (insert_by_len entry entries) (entry ∷ entries)
unfolding insert_by_len
insert_by_len-Perm (p, ts) [] = Perm.refl _
insert_by_len-Perm (p, ts) ((q, us) ∷ rest) = elim (Bool-cases (leb (length q) (length p))) [
  | inl e ↦ rw e (Perm.refl _)
  | inr e ↦
      rw e (Perm.trans (Perm.cons (q, us) (insert_by_len-Perm (p, ts) rest)) (Perm.swap _ _ rest))
]

sort_by_len-Perm : (entries : List (Bytes × List BindTarget)) → Perm (sort_by_len entries) entries
unfolding sort_by_len
sort_by_len-Perm [] = Perm.refl _
sort_by_len-Perm (entry ∷ entries) =
    Perm.trans (insert_by_len-Perm entry (sort_by_len entries))
      (Perm.cons entry (sort_by_len-Perm entries))

-- A name's matching bindings are those that `is_match` accepts, each once, the longest paths first.
pub matching_targets-IsByLen :
    (name : Bytes) (bindings : Bindings)
    → IsByLen (matching_targets name bindings)
      × Perm (matching_targets name bindings) (keep_keys (is_match name) bindings)
unfolding matching_targets
matching_targets-IsByLen name bindings = (
  sort_by_len-IsByLen (keep_keys (is_match name) bindings),
  sort_by_len-Perm (keep_keys (is_match name) bindings),
)
