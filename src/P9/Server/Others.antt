-- ===== src/P9/Server/Others.antt =====
-- What a walk in crates/star9-protocol/src/p9.rs leaves of the fids that it is not about.
use star.Base.{
  ℕ, ◌≡◌, ◌≢◌, refl, ap, ◌∙◌, Bool, true, false, not, ◌&&◌, ◌||◌, ◌==◌, ==_iff, List, [], ◌∷◌, ◌++◌,
  Bytes, Option, some, none, arith, if◌then◌else◌, Bool-cases, inl, inr,
}
use star.Base.Table
use star.Base.Table.{get-insert}
use star.Core.Error.{Error, Result, ok, err}
use star.Core.Path.{is_nil}
use star.Fs.{FileSystem}
use star.P9.Attr.{walk_join, contains_slash}
use star.P9.Types.{Qid}
use star.P9.Server.State.{
  found, FidState, ServerState, Exec, ◌>>=◌, fail, get_fid, set_fid, is_taken,
}
use star.P9.Server.Walk.{qid_for, walk_loop, stop_walk, walk}
use star.P9.Server.Effects.{Quiet, Quiet-pure, Quiet-fail, Quiet-call, Quiet-attempt, Quiet-bind}

-- `m` leaves the fid `j` as it was, on every way out.
record Leaves {sys : FileSystem} {A : Type 0} (j : ℕ) (m : Exec sys A) : Type 0 where
  at : (s : ServerState sys) → Table.get j (m s).1.fids ≡ Table.get j s.fids

module _ {sys : FileSystem} (j : ℕ) where
  Leaves-Quiet : {A : Type 0} {m : Exec sys A} → Quiet m → Leaves j m
  Leaves-Quiet q = record { at = λ s. ap (Table.get j) (q.at s) }

  Leaves-if :
      {A : Type 0} (b : Bool) {m n : Exec sys A}
      → Leaves j m
      → Leaves j n
      → Leaves j (if b then m else n)
  Leaves-if true k l = k
  Leaves-if false k l = l

  then_left :
      {A B : Type 0} (f : A → Exec sys B) (r : Result A) (s : ServerState sys)
      → ((a : A) → Leaves j (f a))
      → Table.get j (◌>>=◌ (λ _. (r, s)) f s).1.fids ≡ Table.get j s.fids
  unfolding ◌>>=◌
  then_left f (ok a) s k = (k a).at s
  then_left f (err e) s k = refl

  Leaves-bind :
      {A B : Type 0} {m : Exec sys A} (f : A → Exec sys B)
      → Leaves j m
      → ((a : A) → Leaves j (f a))
      → Leaves j (m >>= f)
  unfolding ◌>>=◌
  Leaves-bind {A} {B} {m} f q k = record { at = λ s. then_left f (m s).0 (m s).1 k ∙ q.at s }

  Leaves-set_fid :
      (fid : ℕ) (st : FidState sys.File)
      → (fid == j) ≡ false
      → Leaves j (set_fid {sys = sys} fid st)
  unfolding set_fid
  Leaves-set_fid fid st h = record { at = λ s. rw (get-insert fid j st s.fids, h) refl }

module _ {sys : FileSystem} where
  Quiet-qid_for : (path : Bytes) → Quiet (qid_for {sys = sys} path)
  unfolding qid_for
  Quiet-qid_for path = Quiet-bind _ (Quiet-call _) λ meta. Quiet-pure _

  Quiet-stop_walk :
      (path : Bytes) (qids : List Qid) (e : Error) → Quiet (stop_walk {sys = sys} path qids e)
  unfolding stop_walk
  Quiet-stop_walk path [] e = Quiet-fail e
  Quiet-stop_walk path (qid ∷ qids) e = Quiet-pure _

  Quiet-result :
      {A B : Type 0} (r : Result A) (f : A → Exec sys B) (g : Error → Exec sys B)
      → ((a : A) → Quiet (f a))
      → ((e : Error) → Quiet (g e))
      → Quiet (elim r [ ok a ↦ f a | err e ↦ g e ])
  Quiet-result (ok a) f g k l = k a
  Quiet-result (err e) f g k l = l e

  Quiet-unless :
      {A : Type 0} (b : Bool) {m n : Exec sys A} → Quiet m → Quiet n → Quiet (if b then m else n)
  Quiet-unless true k l = k
  Quiet-unless false k l = l

  Quiet-walk_loop :
      (path : Bytes) (qids : List Qid) (names : List Bytes)
      → Quiet (walk_loop {sys = sys} path qids names)
  unfolding walk_loop
  Quiet-walk_loop path qids [] = Quiet-pure _
  Quiet-walk_loop path qids (name ∷ names) =
      Quiet-unless (contains_slash name || is_nil name) (Quiet-fail _) (
        Quiet-bind _ (Quiet-attempt (Quiet-qid_for (walk_join path name))) λ r.
          Quiet-result r _ _ (λ qid. Quiet-walk_loop (walk_join path name) (qids ++ qid ∷ []) names)
            (λ e. Quiet-stop_walk path qids e))

  Quiet-is_taken : (fid : ℕ) → Quiet (is_taken {sys = sys} fid)
  unfolding is_taken
  Quiet-is_taken fid = record { at = λ s. refl }

  Quiet-get_fid : (fid : ℕ) → Quiet (get_fid {sys = sys} fid)
  unfolding get_fid found
  Quiet-get_fid fid = record { at = λ s. go (Table.get fid s.fids) s }
    where
      go : (o : Option (FidState sys.File)) (s : ServerState sys) → (found o s).1.fids ≡ s.fids
      go none s = refl
      go (some st) s = refl

  walk-other :
      (fid newfid : ℕ) (names : List Bytes) (j : ℕ)
      → (newfid == j) ≡ false
      → Leaves j (walk {sys = sys} fid newfid names)
  unfolding walk
  walk-other fid newfid names j h =
      Leaves-bind j _ (Leaves-Quiet j (Quiet-is_taken newfid)) λ taken.
        Leaves-if j (not (newfid == fid) && taken) (Leaves-Quiet j (Quiet-fail _)) (
          Leaves-bind j _ (Leaves-Quiet j (Quiet-get_fid fid)) λ st.
            Leaves-bind j _ (Leaves-Quiet j (Quiet-walk_loop st.path [] names))
              λ p. Leaves-bind j _ (Leaves-set_fid j newfid _ h) λ _. Leaves-Quiet j (Quiet-pure _))

  -- A walk, whatever its new fid is and whether it succeeds or not, leaves every fid that is in use, but
  -- for its own, as it was.
  pub walk-kept :
      (fid newfid j : ℕ) (names : List Bytes) (s : ServerState sys)
      → j ≢ fid
      → Table.contains_key j s.fids ≡ true
      → Table.get j (walk fid newfid names s).1.fids ≡ Table.get j s.fids
  walk-kept fid newfid j names s n h = elim (Bool-cases (newfid == j)) [
    | inl e ↦
        let same : newfid ≡ j = (==_iff newfid j).0 e in
        let differ : (newfid == fid) ≡ false = ground (arith, n, same) in
        let taken : Table.contains_key newfid s.fids ≡ true =
          ap (λ k. Table.contains_key k s.fids) same ∙ h in
        unfold walk ◌>>=◌ is_taken fail in rw (differ, taken) refl
    | inr e ↦ (walk-other fid newfid names j e).at s
  ]
