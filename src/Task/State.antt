-- ===== src/Task/State.antt =====
-- The fields of a task of crates/star9-task/src/lib.rs.
use star.Base.{
  ℕ, Bool, false, ◌==◌, ◌&&◌, List, [], ◌∷◌, ◌++◌, Bytes, bytes_eq, codes, Option, none, some,
  if◌then◌else◌, decimal,
}
use star.Core.Error.{Error, ErrorKind, Result, ok, err}
use star.Core.Path.{dot}

pub record TaskState : Type 0 where
  pub alias : Bytes
  pub kind : Bytes
  pub cmd : Bytes
  pub env : List Bytes
  pub exit : Bytes
  pub dir : Bytes

abbrev pub empty : Bytes
empty = []

-- The state of a new task.
abbrev pub new_state : Bytes → TaskState
new_state kind = record {
  alias = empty;
  kind = kind;
  cmd = empty;
  env = [];
  exit = empty;
  dir = dot;
}

starts_line_feed : Bytes → Bool
starts_line_feed [] = false
starts_line_feed (c ∷ cs) = c == 10

cons_line : ℕ → List Bytes → List Bytes
cons_line c [] = (c ∷ []) ∷ []
cons_line c (line ∷ more) = (c ∷ line) ∷ more

-- `str::lines`: a line ends with a line feed, or a carriage return and a line feed.
unfoldable pub lines : Bytes → List Bytes
unfolding starts_line_feed cons_line
lines [] = []
lines (c ∷ cs) =
    let rest = lines cs in
    if c == 10
    then empty ∷ rest
    else if c == 13 && starts_line_feed cs
    then rest
    else cons_line c rest

-- `join("\n")`
unfoldable pub join_lines : List Bytes → Bytes
join_lines [] = []
join_lines (line ∷ []) = line
join_lines (line ∷ more ∷ rest) = line ++ 10 ∷ join_lines (more ∷ rest)

-- The fields that `set_field` writes.
unfoldable pub assign : Bytes → Bytes → TaskState → Option TaskState
assign name value state =
    if bytes_eq name (codes "cmd")
    then some (record state { cmd = value })
    else if bytes_eq name (codes "alias")
    then some (record state { alias = value })
    else if bytes_eq name (codes "env")
    then some (record state { env = lines value })
    else if bytes_eq name (codes "dir")
    then some (record state { dir = value })
    else if bytes_eq name (codes "exit")
    then some (record state { exit = value })
    else none

unfoldable pub value_of_field : ℕ → Bytes → TaskState → Result Bytes
value_of_field id name state =
    if bytes_eq name (codes "id")
    then ok (decimal id)
    else if bytes_eq name (codes "kind")
    then ok state.kind
    else if bytes_eq name (codes "cmd")
    then ok state.cmd
    else if bytes_eq name (codes "alias")
    then ok state.alias
    else if bytes_eq name (codes "env")
    then ok (join_lines state.env)
    else if bytes_eq name (codes "dir")
    then ok state.dir
    else if bytes_eq name (codes "exit")
    then ok state.exit
    else err (Error.kind ErrorKind.invalid)
