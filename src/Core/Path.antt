-- ===== src/Core/Path.antt =====
-- The path functions of crates/star9-core/src/lib.rs. A path is the bytes of a `str`; every
-- character that these functions test is ASCII.
pub mod Segments
pub mod Clean
pub mod Parts
pub mod Join
pub mod Child
use star.Base.{
  ℕ, Bool, true, false, not, ◌&&◌, ◌||◌, Option, none, some, List, [], ◌∷◌, ◌++◌, Bytes, codes,
  bytes_eq, ◌==◌, if◌then◌else◌,
}
use mathlib.Core.List.{reverse, head?}
use mathlib.Core.Option.{get_or}

abbrev pub slash : ℕ
slash = b'/'

-- "."
abbrev pub dot : Bytes
dot = codes "."

-- ".."
abbrev pub dot_dot : Bytes
dot_dot = codes ".."

unfoldable pub is_nil : Bytes → Bool
is_nil [] = true
is_nil (c ∷ cs) = false

unfoldable pub starts_with_slash : Bytes → Bool
starts_with_slash [] = false
starts_with_slash (c ∷ cs) = c == slash

unfoldable pub ends_with_slash : Bytes → Bool
ends_with_slash [] = false
ends_with_slash (c ∷ []) = c == slash
ends_with_slash (c ∷ d ∷ cs) = ends_with_slash (d ∷ cs)

-- `path.split('/')`: never empty.
abbrev pub cons_head : ℕ → List Bytes → List Bytes
cons_head c [] = (c ∷ []) ∷ []
cons_head c (s ∷ ss) = (c ∷ s) ∷ ss

unfoldable pub split : Bytes → List Bytes
split [] = [] ∷ []
split (c ∷ cs) = let rest = split cs in if c == slash then [] ∷ rest else cons_head c rest

-- `parts.join("/")`
unfoldable pub join : List Bytes → Bytes
join [] = []
join (p ∷ []) = p
join (p ∷ q ∷ ps) = p ++ slash ∷ join (q ∷ ps)

-- `Vec::pop`
unfoldable pub pop : List Bytes → List Bytes
pop [] = []
pop (p ∷ []) = []
pop (p ∷ q ∷ ps) = p ∷ pop (q ∷ ps)

-- One round of the loop of `clean_path`.
unfoldable pub clean_step : List Bytes → Bytes → List Bytes
clean_step parts part =
    if is_nil part || bytes_eq part dot
    then parts
    else if bytes_eq part dot_dot
    then pop parts
    else parts ++ part ∷ []

unfoldable pub clean_parts : List Bytes → List Bytes → List Bytes
clean_parts parts [] = parts
clean_parts parts (part ∷ rest) = clean_parts (clean_step parts part) rest

-- `trim_start_matches('/')`
unfoldable pub trim_slashes : Bytes → Bytes
trim_slashes [] = []
trim_slashes (c ∷ cs) = let rest = trim_slashes cs in if c == slash then rest else c ∷ cs

unfoldable pub clean_path : Bytes → Bytes
clean_path path =
    if is_nil path || bytes_eq path dot
    then dot
    else (let absolute = starts_with_slash path in
        let cleaned = join (clean_parts [] (split path)) in
        if is_nil cleaned then dot else if absolute then trim_slashes cleaned else cleaned)

-- `!part.is_empty() && part != "." && part != ".."`
unfoldable pub is_plain : Bytes → Bool
is_plain part = not (is_nil part) && not (bytes_eq part dot) && not (bytes_eq part dot_dot)

unfoldable pub all_plain : List Bytes → Bool
all_plain [] = true
all_plain (p ∷ ps) = is_plain p && all_plain ps

unfoldable pub valid_path : Bytes → Bool
valid_path path =
    if bytes_eq path dot
    then true
    else if is_nil path || starts_with_slash path || ends_with_slash path
    then false
    else all_plain (split path)

-- `path.rsplit('/').next().unwrap_or(path)`
unfoldable pub base_name : Bytes → Bytes
base_name path = get_or (head? (reverse (split path))) path

-- `rsplit_once('/')`
unfoldable pub rsplit_once : Bytes → Option (Bytes × Bytes)
rsplit_once [] = none
rsplit_once (c ∷ cs) = elim (rsplit_once cs) [
  | some (before, after) ↦ some (c ∷ before, after)
  | none ↦ if c == slash then some ([], cs) else none
]

unfoldable pub parent_path : Bytes → Bytes
parent_path path =
    let cleaned = clean_path path in
    if bytes_eq cleaned dot
    then dot
    else elim (rsplit_once cleaned) [ some (parent, _) ↦ parent | none ↦ dot ]

unfoldable pub strip_prefix : Bytes → Bytes → Option Bytes
strip_prefix [] name = some name
strip_prefix (c ∷ cs) [] = none
strip_prefix (c ∷ cs) (d ∷ ds) = let rest = strip_prefix cs ds in if c == d then rest else none

-- `strip_prefix(root).and_then(|rest| rest.strip_prefix('/'))`
unfoldable pub strip_dir : Bytes → Bytes → Option Bytes
strip_dir root name = elim (strip_prefix root name) [
  | none ↦ none
  | some rest ↦ strip_prefix (slash ∷ []) rest
]

unfoldable pub relative_under : Bytes → Bytes → Option Bytes
relative_under root name =
    if bytes_eq root name
    then some dot
    else if bytes_eq root dot
    then some (clean_path name)
    else elim (strip_dir root name) [ none ↦ none | some rest ↦ some (clean_path rest) ]
