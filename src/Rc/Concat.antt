-- ===== src/Rc/Concat.antt =====
-- The concatenation of lists in crates/star9-rc/src/lib.rs.
use star.Base.{
  suc, ◌*◌, ◌≡◌, refl, ap, sym, ◌∙◌, List, [], ◌∷◌, ◌++◌, length, length-append, append_assoc,
  arith,
}
use star.Rc.Chars.{Chars}
use star.Rc.Values.{prefix_all, concat_values}

prefix_all-append :
    (l : Chars) (xs ys : List Chars) → prefix_all l (xs ++ ys) ≡ prefix_all l xs ++ prefix_all l ys
unfolding prefix_all
prefix_all-append l [] ys = refl
prefix_all-append l (x ∷ xs) ys = ap (λ t. (l ++ x) ∷ t) (prefix_all-append l xs ys)

prefix_all-prefix_all :
    (l m : Chars) (xs : List Chars) → prefix_all (l ++ m) xs ≡ prefix_all l (prefix_all m xs)
unfolding prefix_all
prefix_all-prefix_all l m [] = refl
prefix_all-prefix_all l m (x ∷ xs) =
    rw (append_assoc l m x) (ap (λ t. (l ++ (m ++ x)) ∷ t) (prefix_all-prefix_all l m xs))

concat_values-append :
    (xs ys zs : List Chars)
    → concat_values (xs ++ ys) zs ≡ concat_values xs zs ++ concat_values ys zs
unfolding concat_values
concat_values-append [] ys zs = refl
concat_values-append (x ∷ xs) ys zs =
    ap (λ t. prefix_all x zs ++ t) (concat_values-append xs ys zs)
    ∙ sym (append_assoc (prefix_all x zs) (concat_values xs zs) (concat_values ys zs))

prefix_all-concat_values :
    (l : Chars) (ys zs : List Chars)
    → concat_values (prefix_all l ys) zs ≡ prefix_all l (concat_values ys zs)
unfolding concat_values prefix_all
prefix_all-concat_values l [] zs = refl
prefix_all-concat_values l (y ∷ ys) zs =
    rw (prefix_all-prefix_all l y zs, prefix_all-concat_values l ys zs)
      (sym (prefix_all-append l (prefix_all y zs) (concat_values ys zs)))

concat_values_assoc :
    (xs ys zs : List Chars)
    → concat_values (concat_values xs ys) zs ≡ concat_values xs (concat_values ys zs)
unfolding concat_values
concat_values_assoc [] ys zs = refl
concat_values_assoc (x ∷ xs) ys zs =
    concat_values-append (prefix_all x ys) (concat_values xs ys) zs
    ∙ rw (prefix_all-concat_values x ys zs, concat_values_assoc xs ys zs) refl

length-prefix_all : (l : Chars) (xs : List Chars) → length (prefix_all l xs) ≡ length xs
unfolding prefix_all
length-prefix_all l [] = refl
length-prefix_all l (x ∷ xs) = ap suc (length-prefix_all l xs)

length-concat_values : (xs ys : List Chars) → length (concat_values xs ys) ≡ length xs * length ys
unfolding concat_values
length-concat_values [] ys = omega arith
length-concat_values (x ∷ xs) ys =
    length-append (prefix_all x ys) (concat_values xs ys)
    ∙ rw (length-prefix_all x ys, length-concat_values xs ys) (omega arith)

-- Concatenation makes as many values as there are pairs of a left and a right one, and it does not
-- matter in which order the parts of a word are put together.
concat_values_lem :
    (xs ys zs : List Chars)
    → (length (concat_values xs ys) ≡ length xs * length ys)
      × (concat_values (concat_values xs ys) zs ≡ concat_values xs (concat_values ys zs))
concat_values_lem xs ys zs = (length-concat_values xs ys, concat_values_assoc xs ys zs)
