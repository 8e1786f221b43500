-- ===== src/Core/Error.antt =====
-- `Error`, `ErrorKind` and `Result` of crates/star9-core/src/lib.rs.
use star.Base.{Bytes, String, ◌≡◌, refl, subst, Bool, true, false}

pub data ErrorKind : Type 0 where
  not_found already_exists invalid permission_denied not_supported not_empty : ErrorKind
  closed not_dir is_dir unexpected_eof other : ErrorKind

-- The derived `==` of `ErrorKind`, as its tests in `matches!` and `if` use it.
abbrev pub is_not_found : ErrorKind → Bool
is_not_found ErrorKind.not_found = true
is_not_found _ = false

abbrev pub is_not_supported : ErrorKind → Bool
is_not_supported ErrorKind.not_supported = true
is_not_supported _ = false

-- `matches!(kind, NotFound | NotSupported | NotDir)`
abbrev pub is_passed_over : ErrorKind → Bool
is_passed_over ErrorKind.not_found = true
is_passed_over ErrorKind.not_supported = true
is_passed_over ErrorKind.not_dir = true
is_passed_over _ = false

pub data Error : Type 0 where
  path : String → Bytes → ErrorKind → Error
  kind : ErrorKind → Error
  message : Bytes → Error

-- `Error::kind`
abbrev pub kind_of : Error → ErrorKind
kind_of (Error.path op p k) = k
kind_of (Error.kind k) = k
kind_of (Error.message m) = ErrorKind.other

-- The crate's `Result<T>`.
pub data Result {ℓ} (T : Type ℓ) : Type ℓ where
  err : Error → Result T
  ok : T → Result T

module _ {ℓ κ} {T : Type ℓ} {U : Type κ} where
  infixl 5 ◌>>=◌
  -- The `?` operator and what follows it.
  abbrev pub ◌>>=◌ : Result T → (T → Result U) → Result U
  err e >>= next = err e
  ok t >>= next = next t

  -- A chain that succeeds has a first step that succeeds.
  pub >>=-eq_ok :
      (m : Result T) (next : T → Result U) {u : U}
      → (m >>= next) ≡ ok u
      → (t : T) × (m ≡ ok t) × (next t ≡ ok u)
  >>=-eq_ok (err e) next h = cc
  >>=-eq_ok (ok t) next h = (t, refl, h)

pub ok-injective {ℓ κ} : {A : Type ℓ} {a b : A} → ok a ≡ ok b → (P : A → Type κ) → P a → P b
ok-injective {a} {b} e P h = let q : a ≡ b = cc e in subst P q h
