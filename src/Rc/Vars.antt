-- ===== src/Rc/Vars.antt =====
-- The variables of a session of crates/star9-rc/src/lib.rs, and how `$` reads them.
use star.Base.{
  ℕ, zero, suc, Bool, true, false, ◌||◌, ◌&&◌, ◌==◌, List, [], ◌∷◌, ◌++◌, length, Option, none,
  some, codes, bytes_eq, decimal, if◌then◌else◌,
}
use star.Rc.Chars.{
  Chars, RcResult, ok, err, plain_error, is_digit, is_alphabetic, split_once, parse_usize,
}
use star.Rc.Values.{split_whitespace, join_with}
use star.Vfs.Map.{Map, lookup}

-- The fields of `RcSession` that a lookup reads; a status is its text.
pub record Vars : Type 0 where
  pub argv : List Chars
  pub argv0 : Chars
  pub last_status : Chars
  pub vars : Map (List Chars)

-- `get`
unfoldable pub nth : ℕ → List Chars → Option Chars
nth n [] = none
nth zero (v ∷ vs) = some v
nth (suc n) (v ∷ vs) = nth n vs

unfoldable pub all_digits : Chars → Bool
all_digits [] = true
all_digits (c ∷ cs) = is_digit c && all_digits cs

-- `Option::into_iter`
unfoldable pub as_list : Option Chars → List Chars
as_list none = []
as_list (some v) = v ∷ []

unfoldable pub argument : Vars → ℕ → Option Chars
unfolding nth
argument s zero = some s.argv0
argument s (suc n) = nth n s.argv

unfoldable pub numbered : Vars → Option ℕ → List Chars
unfolding as_list argument
numbered s none = []
numbered s (some index) = as_list (argument s index)

-- The `Display` of `RcStatus`.
unfoldable pub show_status : Chars → Chars
show_status [] = b'0' ∷ []
show_status (c ∷ cs) = c ∷ cs

unfoldable pub or_nothing : Option (List Chars) → List Chars
or_nothing none = []
or_nothing (some values) = values

unfoldable pub lookup_var : Chars → Vars → List Chars
unfolding all_digits numbered show_status or_nothing
lookup_var name s =
    if bytes_eq name (codes "*")
    then s.argv
    else if bytes_eq name (codes "0")
    then s.argv0 ∷ []
    else if all_digits name
    then numbered s (parse_usize name)
    else if bytes_eq name (codes "status")
    then show_status s.last_status ∷ []
    else or_nothing (lookup name s.vars)

-- `count` and `quote`
pub data Flag : Type 0 where
  plain count quoted : Flag

unfoldable pub read_flag : Chars → Flag × Chars
read_flag [] = (Flag.plain, [])
read_flag (c ∷ cs) =
    if c == b'#'
    then (Flag.count, cs)
    else if c == b'"'
    then (Flag.quoted, cs)
    else (Flag.plain, c ∷ cs)

unfoldable pub name_loop : Chars → Chars → Chars × Chars
name_loop out [] = (out, [])
name_loop out (c ∷ cs) = elim (is_alphabetic c || is_digit c || c == b'_') [
  | true ↦ name_loop (out ++ c ∷ []) cs
  | false ↦ (out, c ∷ cs)
]

unfoldable pub read_name : Chars → Chars × Chars
unfolding name_loop
read_name [] = ([], [])
read_name (c ∷ cs) = if c == b'*' then (c ∷ [], cs) else name_loop [] (c ∷ cs)

-- What one subscript selects; the first value has number one.
unfoldable pub subscript : List Chars → Option ℕ → List Chars
unfolding nth as_list
subscript values none = []
subscript values (some zero) = []
subscript values (some (suc n)) = as_list (nth n values)

unfoldable pub select : List Chars → List Chars → List Chars
unfolding subscript
select values [] = []
select values (sub ∷ subs) = subscript values (parse_usize sub) ++ select values subs

unfoldable pub with_flag : Flag → List Chars → List Chars
with_flag Flag.plain values = values
with_flag Flag.count values = decimal (length values) ∷ []
with_flag Flag.quoted values = join_with (b' ' ∷ []) values ∷ []

-- The values of a variable, and a subscript that may follow its name.
unfoldable pub read_subscript : List Chars → Chars → RcResult (List Chars × Chars)
unfolding select
read_subscript values [] = ok (values, [])
read_subscript values (c ∷ cs) = elim (c == b'(') [
  | true ↦ elim (split_once b')' cs) [
    | none ↦ err (plain_error "unterminated variable subscript")
    | some (subs, rest) ↦ ok (select values (split_whitespace subs), rest)
  ]
  | false ↦ ok (values, c ∷ cs)
]

unfoldable pub flagged : Flag → RcResult (List Chars × Chars) → RcResult (List Chars × Chars)
unfolding with_flag
flagged flag r = elim r [
  | ok (values, rest) ↦ ok (with_flag flag values, rest)
  | err e ↦ err e
  | RcResult.out_of_fuel ↦ RcResult.out_of_fuel
]

unfoldable pub expand_name : Vars → Flag → Chars → Chars → Chars → RcResult (List Chars × Chars)
unfolding flagged read_subscript lookup_var
expand_name s flag start [] rest = ok ((b'$' ∷ []) ∷ [], start)
expand_name s flag start (c ∷ cs) rest = flagged flag (read_subscript (lookup_var (c ∷ cs) s) rest)

-- What follows a dollar; without a name the dollar stands for itself.
unfoldable pub read_variable_expansion : Vars → Chars → RcResult (List Chars × Chars)
unfolding read_flag read_name expand_name
read_variable_expansion s cs =
    let (flag, behind) = read_flag cs in
    let (name, rest) = read_name behind in expand_name s flag cs name rest
