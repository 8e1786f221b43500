-- ===== src/P9/Server/Keeps.antt =====
-- The invariant of the server's state, and a rule for each step that handlers are made of.
use star.Base.{
  ℕ, ◌≡◌, refl, subst, Bool, true, false, Bytes, Option, some, none, if◌then◌else◌, ◌==◌,
  Bool-cases, inl, inr,
}
use star.Base.Table
use star.Base.Table.{Table, get-insert, get-remove}
use star.Core.Error.{Error, Result, ok, err}
use star.Core.Path.{valid_path}
use star.Fs.{FileSystem}
use star.P9.Xattr.Complete.{IsSound}
use star.P9.Server.State.{
  found, FidHandle, FidState, ServerState, Exec, ◌>>=◌, pure, fail, attempt, call, call_file, when,
  get_fid, set_fid, take_fid, is_taken, fid_path, unopened,
}
use star.P9.Server.Walk.{lift}

abbrev pub SoundHandle : {F : Type 0} → FidHandle F → Type 0
SoundHandle (FidHandle.xattr_write w) = IsSound w
SoundHandle _ = Unit

-- A fid stands at a valid path, and what it has of an attribute is sound.
pub record IsGood {F : Type 0} (st : FidState F) : Type 0 where
  pub valid : valid_path st.path ≡ true
  pub sound : SoundHandle st.handle

module _ {F : Type 0} where
  abbrev pub GoodTable : Table (FidState F) → Type 0
  GoodTable t = (fid : ℕ) (st : FidState F) → Table.get fid t ≡ some st → IsGood st

  insert-GoodTable :
      (fid : ℕ) (st : FidState F) (t : Table (FidState F))
      → IsGood st
      → GoodTable t
      → GoodTable (Table.insert fid st t)
  insert-GoodTable fid st t g h j u p =
      let q = rw get-insert at p in
      elim (Bool-cases (fid == j)) [
        | inl e ↦ let r : some st ≡ some u = rw e at q in subst IsGood (cc r) g
        | inr e ↦ h j u (rw e at q)
      ]

  remove-GoodTable :
      (fid : ℕ) (t : Table (FidState F)) → GoodTable t → GoodTable (Table.remove fid t)
  remove-GoodTable fid t h j u p =
      let q = rw get-remove at p in
      elim (Bool-cases (fid == j)) [
        | inl e ↦ let r : none ≡ some u = rw e at q in absurd (cc r)
        | inr e ↦ h j u (rw e at q)
      ]

-- All fids of the server are good.
pub record IsSafe {sys : FileSystem} (s : ServerState sys) : Type 0 where
  pub fids : GoodTable s.fids

-- `m` keeps the invariant on every way out, and what it returns satisfies `Q`.
pub record Keeps {sys : FileSystem} {A : Type 0} (m : Exec sys A) (Q : A → Type 0) : Type 0 where
  pub at : (s : ServerState sys) → IsSafe s → IsSafe (m s).1 × ((a : A) → (m s).0 ≡ ok a → Q a)

abbrev pub Any : {A : Type 0} → A → Type 0
Any a = Unit

module _ {sys : FileSystem} {A : Type 0} {Q : A → Type 0} where
  pub Keeps-pure : (a : A) → Q a → Keeps (pure {sys = sys} a) Q
  unfolding pure
  Keeps-pure a q = record { at = λ s h. (h, λ b e. subst Q (cc e) q) }

  pub Keeps-fail : (e : Error) → Keeps (fail {sys = sys} {A = A} e) Q
  unfolding fail
  Keeps-fail e = record { at = λ s h. (h, λ b p. absurd (cc p)) }

  pub Keeps-if :
      (b : Bool) {m n : Exec sys A} → Keeps m Q → Keeps n Q → Keeps (if b then m else n) Q
  Keeps-if true k l = k
  Keeps-if false k l = l

  pub Keeps-Any : {m : Exec sys A} → Keeps m Q → Keeps m Any
  Keeps-Any k = record { at = λ s h. ((k.at s h).0, λ a e. tt) }

  pub Keeps-attempt : {m : Exec sys A} → Keeps m Q → Keeps (attempt m) Any
  unfolding attempt
  Keeps-attempt k = record { at = λ s h. ((k.at s h).0, λ a e. tt) }

module _ {sys : FileSystem} {A B : Type 0} {Q : A → Type 0} {R : B → Type 0} where
  next :
      (f : A → Exec sys B) (r : Result A) (s : ServerState sys)
      → IsSafe s
      → ((a : A) → r ≡ ok a → Q a)
      → ((a : A) → Q a → Keeps (f a) R)
      → IsSafe (◌>>=◌ (λ _. (r, s)) f s).1 × ((b : B) → (◌>>=◌ (λ _. (r, s)) f s).0 ≡ ok b → R b)
  unfolding ◌>>=◌
  next f (ok a) s h q k = (k a (q a refl)).at s h
  next f (err e) s h q k = (h, λ b p. absurd (cc p))

  pub Keeps-bind :
      {m : Exec sys A} (f : A → Exec sys B)
      → Keeps m Q
      → ((a : A) → Q a → Keeps (f a) R)
      → Keeps (m >>= f) R
  unfolding ◌>>=◌
  Keeps-bind {m} f k l = record {
    at = λ s h. let (h', q) = k.at s h in next f (m s).0 (m s).1 h' q l;
  }

-- A `match` on a result.
pub Keeps-result :
    {sys : FileSystem} {A B : Type 0} {Q : B → Type 0} (r : Result A) (f : A → Exec sys B)
    (g : Error → Exec sys B)
    → ((a : A) → Keeps (f a) Q)
    → ((e : Error) → Keeps (g e) Q)
    → Keeps (elim r [ ok a ↦ f a | err e ↦ g e ]) Q
Keeps-result (ok a) f g k l = k a
Keeps-result (err e) f g k l = l e

module _ {sys : FileSystem} {A : Type 0} where
  pub Keeps-call : (m : sys.Fs → Result A × sys.Fs) → Keeps (call {sys = sys} m) Any
  unfolding call
  Keeps-call m = record { at = λ s h. (record { fids = h.fids }, λ a e. tt) }

  pub Keeps-lift : (r : Result A) → Keeps (lift {sys = sys} r) (λ a. r ≡ ok a)
  unfolding lift
  Keeps-lift (ok a) = Keeps-pure a refl
  Keeps-lift (err e) = Keeps-fail e

module _ {sys : FileSystem} where
  pub Keeps-is_taken : (fid : ℕ) → Keeps (is_taken {sys = sys} fid) Any
  unfolding is_taken
  Keeps-is_taken fid = record { at = λ s h. (h, λ a e. tt) }

  pub Keeps-now : Keeps {sys = sys} (λ s. (ok (sys.now s.fs), s)) Any
  Keeps-now = record { at = λ s h. (h, λ a e. tt) }

  pub Keeps-get_fid : (fid : ℕ) → Keeps (get_fid {sys = sys} fid) IsGood
  unfolding get_fid
  Keeps-get_fid fid = record { at = λ s h. go s h (Table.get fid s.fids) refl }
    where
      go :
          (s : ServerState sys)
          → IsSafe s
          → (o : Option (FidState sys.File)) → Table.get fid s.fids ≡ o
          → IsSafe (found o s).1 × ((a : FidState sys.File) → (found o s).0 ≡ ok a → IsGood a)
      go s h none e = (h, λ a p. absurd (cc p))
      go s h (some st) e = (h, λ a p. subst IsGood (cc p) (h.fids fid st e))

  pub Keeps-take_fid : (fid : ℕ) → Keeps (take_fid {sys = sys} fid) IsGood
  unfolding take_fid
  Keeps-take_fid fid = record { at = λ s h. go s h (Table.get fid s.fids) refl }
    where
      go :
          (s : ServerState sys)
          → IsSafe s
          → (o : Option (FidState sys.File)) → Table.get fid s.fids ≡ o
          → let s' = record s { fids = Table.remove fid s.fids } in
            IsSafe (found o s').1 × ((a : FidState sys.File) → (found o s').0 ≡ ok a → IsGood a)
      go s h none e = (record { fids = remove-GoodTable fid s.fids h.fids }, λ a p. absurd (cc p))
      go s h (some st) e = (
        record { fids = remove-GoodTable fid s.fids h.fids },
        λ a p. subst IsGood (cc p) (h.fids fid st e),
      )

  pub Keeps-set_fid :
      (fid : ℕ) (st : FidState sys.File) → IsGood st → Keeps (set_fid {sys = sys} fid st) Any
  unfolding set_fid
  Keeps-set_fid fid st g = record {
    at = λ s h. (record { fids = insert-GoodTable fid st s.fids g h.fids }, λ a e. tt);
  }

  pub Keeps-call_file :
      {A : Type 0} (fid : ℕ) (st : FidState sys.File) (f : sys.File)
      (m : sys.File → sys.Fs → Result A × sys.File × sys.Fs)
      → IsGood st
      → Keeps (call_file {sys = sys} fid st f m) Any
  unfolding call_file
  Keeps-call_file fid st f m g = record {
    at = λ s h. (
      record {
        fids = insert-GoodTable fid _ s.fids (record { valid = g.valid; sound = tt }) h.fids;
      },
      λ a e. tt,
    );
  }

  pub Keeps-fid_path : (fid : ℕ) → Keeps (fid_path {sys = sys} fid) (λ p. valid_path p ≡ true)
  unfolding fid_path
  Keeps-fid_path fid = Keeps-bind _ (Keeps-get_fid fid) (λ st g. Keeps-pure st.path g.valid)

  pub Keeps-when : (b : Bool) {m : Exec sys (Unit {0})} → Keeps m Any → Keeps (when b m) Any
  unfolding when
  Keeps-when true k = k
  Keeps-when false k = Keeps-pure tt tt

pub unopened-IsGood :
    {F : Type 0} (path : Bytes) → valid_path path ≡ true → IsGood (unopened {F = F} path)
unfolding unopened
unopened-IsGood path v = record { valid = v; sound = tt }
