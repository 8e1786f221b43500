-- ===== src/Rc/Ast.antt =====
-- The tree of a script in crates/star9-rc/src/lib.rs. Lists of nodes are types of their own, as a node
-- has them in it.
use star.Base.{ℕ, Bool, List, [], ◌∷◌, Option}
use star.Rc.Chars.{Chars, Span}
use star.Rc.Operators.{PipeSpec, RedirectMode}

pub record Word : Type 0 where
  pub raw : Chars
  pub span : Span

-- `Word::new`
abbrev pub new_word : Chars → Word
new_word raw = record { raw = raw; span = record { start = 0; end = 0 } }

pub record Assignment : Type 0 where
  pub name : Chars
  pub values : List Word

pub record HereDoc : Type 0 where
  pub body : Chars
  pub expand : Bool

mutual
  pub data Node : Type 0 where
    empty : Node
    simple : SimpleCommand → Node
    block sequence : Nodes → Node
    both either : Node → Node → Node
    pipe : Node → Node → Option PipeSpec → Node
    inverse background : Node → Node
    if_else : Node → Node → Branch → Node
    for_in : Chars → List Word → Node → Node
    while_loop : Node → Node → Node
    switch : Word → Cases → Node
    function : Chars → Branch → Node

  -- `Vec<Node>`
  pub data Nodes : Type 0 where
    nil : Nodes
    cons : Node → Nodes → Nodes

  -- `Option<Box<Node>>`
  pub data Branch : Type 0 where
    no_node : Branch
    a_node : Node → Branch

  -- `Vec<SwitchCase>`
  pub data Cases : Type 0 where
    no_case : Cases
    a_case : List Word → Nodes → Cases → Cases

  -- `Option<RedirectTarget>`
  pub data Target : Type 0 where
    no_target : Target
    word_target : Word → Target
    process : Node → Target
    here_doc : HereDoc → Target

  -- `Vec<Redirect>`
  pub data Redirects : Type 0 where
    no_redirect : Redirects
    a_redirect : ℕ → RedirectMode → Target → Redirects → Redirects

  pub data SimpleCommand : Type 0 where
    command : List Assignment → List Word → Redirects → SimpleCommand

unfoldable pub nodes_of : List Node → Nodes
nodes_of [] = Nodes.nil
nodes_of (node ∷ nodes) = Nodes.cons node (nodes_of nodes)

unfoldable pub cases_of : List (List Word × Nodes) → Cases
cases_of [] = Cases.no_case
cases_of ((patterns, body) ∷ cases) = Cases.a_case patterns body (cases_of cases)
