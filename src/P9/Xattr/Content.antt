-- ===== src/P9/Xattr/Content.antt =====
-- What `write_at` of crates/star9-protocol/src/p9.rs leaves in the attribute.
use star.Base.{
  ℕ, ◌+◌, ◌≤◌, ◌≡◌, ap, sym, subst, ◌∙◌, ◌++◌, Bytes, length, take, drop, arith, length-append,
  take-append, drop-append, length-take_le, append_assoc,
}
use star.Core.Error.{ok}
use star.P9.Xattr.{XattrWriteState, write_at}
use star.P9.Xattr.Complete.{IsSound, write_at-eq_ok}

take_front : (n : ℕ) (xs ys : Bytes) → length xs ≡ n → take n (xs ++ ys) ≡ xs
take_front n xs ys h = subst (λ k. take k (xs ++ ys) ≡ xs) h (take-append xs ys)

drop_front : (n : ℕ) (xs ys : Bytes) → length xs ≡ n → drop n (xs ++ ys) ≡ ys
drop_front n xs ys h = subst (λ k. drop k (xs ++ ys) ≡ ys) h (drop-append xs ys)

-- `chunk` stands at `offset`, and nothing else differs from the bytes `old`.
abbrev pub Overwrites : Bytes → ℕ → Bytes → Bytes → Type 0
Overwrites old offset chunk new =
    (take offset new ≡ take offset old)
    × (take (length chunk) (drop offset new) ≡ chunk)
    × (drop (offset + length chunk) new ≡ drop (offset + length chunk) old)

overwritten :
    (old : Bytes) (offset : ℕ) (chunk : Bytes)
    → offset + length chunk ≤ length old
    → Overwrites old offset chunk (take offset old ++ (chunk ++ drop (offset + length chunk) old))
overwritten old offset chunk h =
    let front = take offset old in
    let back = drop (offset + length chunk) old in
    let n : length front ≡ offset = length-take_le offset old (omega (arith, h)) in
    let behind = drop_front offset front (chunk ++ back) n in
    (
      take_front offset front (chunk ++ back) n,
      ap (take (length chunk)) behind ∙ take-append chunk back,
      ap (drop (offset + length chunk)) (sym (append_assoc front chunk back))
          ∙ drop_front (offset + length chunk) (front ++ chunk) back
              (omega (arith, length-append front chunk, n)),
    )

-- A write that a sound state accepts puts the chunk at its offset and leaves every other byte of the
-- attribute as it was.
pub write_at-Overwrites :
    (w w' : XattrWriteState) (offset n : ℕ) (chunk : Bytes)
    → IsSound w
    → write_at w offset chunk ≡ ok (n, w')
    → Overwrites w.content offset chunk w'.content
write_at-Overwrites w w' offset n chunk s e =
    let (h, q) = write_at-eq_ok w offset chunk e in
    subst (λ p. Overwrites w.content offset chunk (p.1).content) q
      (overwritten w.content offset chunk (omega (arith, h, s.size)))
