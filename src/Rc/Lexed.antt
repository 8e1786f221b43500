-- ===== src/Rc/Lexed.antt =====
-- The tokens that the lexer of crates/star9-rc/src/lib.rs makes stand in order in the source.
use star.Base.{
  ℕ, zero, suc, ◌+◌, ◌-◌, ◌≤◌, ◌<◌, ◌≡◌, refl, ap, sym, ◌∙◌, Bool, true, false, ◌||◌, ◌&&◌, ◌==◌,
  List, [], ◌∷◌, ◌++◌, length, take, drop, append_assoc, length-append, take-append, drop-append,
  arith, Bool-cases, inl, inr,
}
use star.Rc.Chars.{Chars, RcResult, ok, err, out_of_fuel}
use star.Rc.Operators.{TokenKind, Token, token, Scanned, scanned}
use star.Rc.Lex.{skip_comment, lex_token, cons_token, lex_loop, lex}
use star.Rc.Taken.{Fine, >>=-Fine}
use star.Rc.Passed.{Moved, skip_comment-first}
use star.Rc.Tokens.{Spells, IsToken, one_char, lex_token-IsToken}

-- The tokens stand one behind the other from `low` on, none of them empty, and a word is spelled like
-- the part of the source that its span covers.
abbrev pub IsLexed : Chars → ℕ → List Token → Type 0
IsLexed source low [] = low ≤ length source
IsLexed source low (t ∷ ts) =
    (low ≤ t.span.start)
    × (t.span.start < t.span.end)
    × Spells t.kind (take (t.span.end - t.span.start) (drop t.span.start source))
    × IsLexed source t.span.end ts

-- A lower bound is one too.
IsLexed-lower :
    (source : Chars) (low low' : ℕ) (ts : List Token)
    → low ≤ low'
    → IsLexed source low' ts
    → IsLexed source low ts
IsLexed-lower source low low' [] h l = omega (arith, h, l)
IsLexed-lower source low low' (t ∷ ts) h (a, b, c, d) = (omega (arith, h, a), b, c, d)

Fine-lower :
    (source : Chars) (low low' : ℕ) (r : RcResult (List Token))
    → low ≤ low'
    → Fine (IsLexed source low') r
    → Fine (IsLexed source low) r
Fine-lower source low low' (ok ts) h l = IsLexed-lower source low low' ts h l
Fine-lower source low low' (err e) h l = tt
Fine-lower source low low' out_of_fuel h l = elim l [ ]

-- What is left of the source at a position.
record IsAt (source : Chars) (i : ℕ) (cs : Chars) : Type 0 where
  before : Chars
  split : source ≡ before ++ cs
  position : i ≡ length before

IsAt-Moved :
    (source : Chars) (n i : ℕ) (cs : Chars) (next : ℕ) (rest : Chars)
    → IsAt source i cs
    → Moved n i cs next rest
    → IsAt source next rest
IsAt-Moved source n i cs next rest a m = record {
  before = a.before ++ m.taken;
  split = a.split ∙ ap (λ l. a.before ++ l) m.split ∙ sym (append_assoc a.before m.taken rest);
  position = omega (arith, a.position, m.position, length-append a.before m.taken);
}

slice :
    (source : Chars) (n i : ℕ) (cs : Chars) (next : ℕ) (rest : Chars)
    → IsAt source i cs
    → (m : Moved n i cs next rest) → take (next - i) (drop i source) ≡ m.taken
slice source n i cs next rest a m =
    let span : next - i ≡ length m.taken = omega (arith, m.position) in
    let left : drop i source ≡ m.taken ++ rest =
      rw (a.position, a.split) (drop-append a.before cs) ∙ m.split in
    rw (span, left) (take-append m.taken rest)

cons_token-IsLexed :
    (source : Chars) (i : ℕ) (t : Token) (more : RcResult (List Token))
    → i ≤ t.span.start
    → t.span.start < t.span.end
    → Spells t.kind (take (t.span.end - t.span.start) (drop t.span.start source))
    → Fine (IsLexed source t.span.end) more
    → Fine (IsLexed source i) (cons_token t more)
unfolding cons_token
cons_token-IsLexed source i t (ok ts) a b c l = (a, b, c, l)
cons_token-IsLexed source i t (err e) a b c l = tt
cons_token-IsLexed source i t out_of_fuel a b c l = elim l [ ]

-- A scanned token, and the tokens of what is left.
token-IsLexed :
    (source : Chars) (i : ℕ) (cs : Chars) (found : Scanned Token) (more : RcResult (List Token))
    → IsAt source i cs
    → IsToken i cs found
    → Fine (IsLexed source found.next) more
    → Fine (IsLexed source i) (cons_token found.value more)
token-IsLexed source i cs found more a t l =
    cons_token-IsLexed source i found.value more (omega (arith, t.start))
      (omega (arith, t.start, t.end, t.moved.position, t.moved.enough))
      (rw (t.start, t.end, slice source 1 i cs found.next found.rest a t.moved) t.spells)
      (rw t.end l)

rest_shorter :
    (n i : ℕ) (cs : Chars) (next : ℕ) (rest : Chars)
    → Moved n i cs next rest
    → length rest + n ≤ length cs
rest_shorter n i cs next rest m =
    omega (arith, ap length m.split, length-append m.taken rest, m.enough)

lex_loop-IsLexed :
    (source : Chars) (fuel i : ℕ) (at_line_start : Bool) (cs : Chars)
    → IsAt source i cs
    → length cs < fuel
    → Fine (IsLexed source i) (lex_loop fuel i at_line_start cs)
unfolding lex_loop
lex_loop-IsLexed source zero i b cs a h = absurd (omega (arith, h))
lex_loop-IsLexed source (suc fuel) i b [] a h =
    omega (arith, a.position, ap length a.split, length-append a.before [])
lex_loop-IsLexed source (suc fuel) i b (c ∷ cs) a h =
    let one = one_char i c cs in
    let skipped = skip_comment i (c ∷ cs) in
    let next : (n j : ℕ) (b' : Bool) (rest : Chars)
        → Moved n i (c ∷ cs) j rest
        → length rest < fuel
        → Fine (IsLexed source j) (lex_loop fuel j b' rest) =
      λ n j b' rest m k.
        lex_loop-IsLexed source fuel j b' rest (IsAt-Moved source n i (c ∷ cs) j rest a m) k in
    elim (Bool-cases (c == b' ' || c == b'\t' || c == b'\r')) [
      | inl e ↦
          rw (lex_loop, e)
            (Fine-lower source i (i + 1) _ (omega arith)
              (next 1 (i + 1) b cs one (omega (arith, h))))
      | inr e ↦ elim (Bool-cases (c == b'\n')) [
        | inl f ↦
            rw (lex_loop, e, f)
              (token-IsLexed source i (c ∷ cs)
                (scanned (token TokenKind.newline i (i + 1)) (i + 1) cs) _ a
                (record { moved = one; start = refl; end = refl; spells = tt })
                (next 1 (i + 1) true cs one (omega (arith, h))))
        | inr f ↦ elim (Bool-cases (b && c == b'#')) [
          | inl g ↦
              let m = skip_comment-first i c cs f in
              let more =
                next 1 skipped.next b skipped.rest m
                  (omega (arith, h, rest_shorter 1 i (c ∷ cs) skipped.next skipped.rest m)) in
              rw (lex_loop, e, f, g)
                (Fine-lower source i skipped.next _ (omega (arith, m.position)) more)
          | inr g ↦
              rw (lex_loop, e, f, g)
                (>>=-Fine (IsToken i (c ∷ cs)) (IsLexed source i) (lex_token i c cs)
                  (λ found. cons_token found.value (lex_loop fuel found.next false found.rest))
                  (lex_token-IsToken i c cs)
                  (λ found t. token-IsLexed source i (c ∷ cs) found _ a t (
                    next 1 found.next false found.rest t.moved
                      (omega (arith, h, rest_shorter 1 _ _ _ _ t.moved)))))
        ]
      ]
    ]

-- The lexer ends on every source. It reports an error, or it returns tokens that stand in the source one
-- behind the other, none of them empty; a word is spelled like the part of the source that its span
-- covers.
pub lex-IsLexed : (source : Chars) → Fine (IsLexed source 0) (lex source)
unfolding lex
lex-IsLexed source =
    lex_loop-IsLexed source (suc (length source)) 0 true source
      (record { before = []; split = refl; position = refl }) (omega arith)
