-- ===== src/Rc/Taken.antt =====
-- What a loop of the lexer of crates/star9-rc/src/lib.rs takes from its input: characters that it puts
-- behind its text, and of which it counts the positions.
use star.Base.{
  ℕ, suc, ◌+◌, ◌≤◌, ◌≡◌, refl, ap, sym, ◌∙◌, [], ◌∷◌, ◌++◌, length, append_assoc, append-nil,
  length-append, arith,
}
use star.Rc.Chars.{Chars, RcResult, ok, err, out_of_fuel, ◌>>=◌}
use star.Rc.Scan.{Read}

-- A result that is as it should be: an error is, and a loop that was given up is not.
abbrev pub Fine : {T : Type 0} → (T → Type 0) → RcResult T → Type 0
Fine P (ok t) = P t
Fine P (err e) = Unit
Fine P out_of_fuel = ⊥

-- What follows a fine step is fine.
pub >>=-Fine :
    {T U : Type 0} (P : T → Type 0) (Q : U → Type 0) (m : RcResult T) (next : T → RcResult U)
    → Fine P m
    → ((t : T) → P t → Fine Q (next t))
    → Fine Q (m >>= next)
>>=-Fine P Q (ok t) next p h = h t p
>>=-Fine P Q (err e) next p h = tt
>>=-Fine P Q out_of_fuel next p h = absurd p

-- At least `n` characters were taken from the input, and put behind the text.
pub record Took (n i : ℕ) (out cs : Chars) (read : Read) : Type 0 where
  pub taken : Chars
  pub text : read.text ≡ out ++ taken
  pub split : cs ≡ taken ++ read.rest
  pub position : read.next ≡ i + length taken
  pub enough : n ≤ length taken

pub Took-none :
    (i : ℕ) (out cs : Chars) → Took 0 i out cs (record { text = out; next = i; rest = cs })
Took-none i out cs = record {
  taken = [];
  text = sym (append-nil out);
  split = refl;
  position = omega arith;
  enough = omega arith;
}

pub Took-more :
    (n m i j : ℕ) (out p cs : Chars) (read : Read)
    → j ≡ i + length p
    → m ≤ length p + n
    → Took n j (out ++ p) cs read
    → Took m i out (p ++ cs) read
Took-more n m i j out p cs read e h t = record {
  taken = p ++ t.taken;
  text = t.text ∙ append_assoc out p t.taken;
  split = ap (λ l. p ++ l) t.split ∙ sym (append_assoc p t.taken read.rest);
  position = omega (arith, t.position, e, length-append p t.taken);
  enough = omega (arith, t.enough, h, length-append p t.taken);
}

pub Took-one :
    (n i : ℕ) (out : Chars) (c : ℕ) (cs : Chars) (read : Read)
    → Took n (i + 1) (out ++ c ∷ []) cs read
    → Took (suc n) i out (c ∷ cs) read
Took-one n i out c cs read t =
    Took-more n (suc n) i (i + 1) out (c ∷ []) cs read (omega arith) (omega arith) t

pub Took-weaken :
    (n m i : ℕ) (out cs : Chars) (read : Read) → m ≤ n → Took n i out cs read → Took m i out cs read
Took-weaken n m i out cs read h t = record {
  taken = t.taken;
  text = t.text;
  split = t.split;
  position = t.position;
  enough = omega (arith, h, t.enough);
}

-- What was taken is no longer there.
pub shorter :
    (n i : ℕ) (out cs : Chars) (read : Read)
    → Took n i out cs read
    → length read.rest + n ≤ length cs
shorter n i out cs read t =
    let parts = ap length t.split in omega (arith, parts, length-append t.taken read.rest, t.enough)

-- A loop that goes on after one character.
pub Fine-one :
    (m i : ℕ) (out : Chars) (c : ℕ) (cs : Chars) (r : RcResult Read)
    → m ≤ 1
    → Fine (Took 0 (i + 1) (out ++ c ∷ []) cs) r
    → Fine (Took m i out (c ∷ cs)) r
Fine-one m i out c cs (ok read) h t = Took-weaken 1 m _ _ _ _ h (Took-one 0 i out c cs read t)
Fine-one m i out c cs (err e) h t = tt
Fine-one m i out c cs out_of_fuel h t = elim t [ ]

-- A loop that goes on behind what another one took.
pub Took-after :
    (n m i : ℕ) (out cs : Chars) (first last : Read)
    → Took n i out cs first
    → Took m first.next first.text first.rest last
    → Took n i out cs last
Took-after n m i out cs first last t u = record {
  taken = t.taken ++ u.taken;
  text = u.text ∙ ap (λ l. l ++ u.taken) t.text ∙ append_assoc out t.taken u.taken;
  split = t.split ∙ ap (λ l. t.taken ++ l) u.split ∙ sym (append_assoc t.taken u.taken last.rest);
  position = omega (arith, t.position, u.position, length-append t.taken u.taken);
  enough = omega (arith, t.enough, length-append t.taken u.taken);
}

pub Fine-after :
    (n m i : ℕ) (out cs : Chars) (first : Read) (r : RcResult Read)
    → Took n i out cs first
    → Fine (Took m first.next first.text first.rest) r
    → Fine (Took n i out cs) r
Fine-after n m i out cs first (ok last) t u = Took-after n m i out cs first last t u
Fine-after n m i out cs first (err e) t u = tt
Fine-after n m i out cs first out_of_fuel t u = elim u [ ]

pub Fine-weaken :
    (i : ℕ) (out cs : Chars) (r : RcResult Read)
    → Fine (Took 1 i out cs) r
    → Fine (Took 0 i out cs) r
Fine-weaken i out cs (ok read) t = Took-weaken 1 0 i out cs read (omega arith) t
Fine-weaken i out cs (err e) t = tt
Fine-weaken i out cs out_of_fuel t = elim t [ ]

-- A text that was read apart is put behind what was read before.
pub Took-append :
    (n i : ℕ) (out cs : Chars) (read : Read)
    → Took n i [] cs read
    → Took n i out cs (record read { text = out ++ read.text })
Took-append n i out cs read t = record {
  taken = t.taken;
  text = ap (λ l. out ++ l) t.text;
  split = t.split;
  position = t.position;
  enough = t.enough;
}
