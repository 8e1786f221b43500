-- ===== src/Tests/Rc.antt =====
-- Runs of the rc language of crates/star9-rc/src/lib.rs.
use star.Base.{◌≡◌, ◌≢◌, ◌↔◌, refl, true, ◌&&◌, List, [], ◌∷◌, codes, Option, some, bytes_eq}
use star.Vfs.Map.{lookup}
use star.Rc.Chars.{Chars, has_char, ok, out_of_fuel}
use star.Rc.Operators.{TokenKind, Token, token}
use star.Rc.Ast.{Node, Nodes, SimpleCommand, Redirects, new_word}
use star.Rc.Parse.{ParserState, sees_or_end}
use star.Rc.Parser.{closes_group, parse_script}
use star.Rc.Nested.{Nested}
use star.Rc.Parsed.{parse_script-Nested}
use star.Rc.Lex.{lex}
use star.Rc.Taken.{Fine}
use star.Rc.Lexed.{IsLexed, lex-IsLexed}
use star.Rc.Glob.{pattern_match}
use star.Rc.Glob.Matches.{Matches}
use star.Rc.Glob.Decides.{pattern_match_iff}
use star.Rc.Values.{join_with, split_caret_parts}
use star.Rc.Vars.{Vars}
use star.Rc.Words.{expand_raw_word, expand_words}
use star.Rc.Quoting.{quoted}
use star.Rc.Status.{is_success, pipeline, is_success-pipeline}
use star.Rc.Carets.{caret, join-split_caret_parts}
use star.Rc.Ends.{expand_raw_word-ends}
use star.Rc.Environment.{export_values, import_values}

abbrev script : Chars
script = codes "ls '|' | wc >>[2] $x(1)#"

lex-IsLexed_example : Fine (IsLexed script 0) (lex script)
lex-IsLexed_example = lex-IsLexed script

pattern_match_iff_example :
    (pattern_match (codes "*.[ch]") (codes "rc.c") ≡ true) ↔ Matches (codes "*.[ch]") (codes "rc.c")
pattern_match_iff_example = pattern_match_iff (codes "*.[ch]") (codes "rc.c")

abbrev session : Vars
session = record {
  argv = codes "a" ∷ [];
  argv0 = codes "rc";
  last_status = [];
  vars = (codes "x", codes "1" ∷ codes "2" ∷ []) ∷ [];
}

abbrev echo : Chars → Vars → Chars × Vars
echo source s = (source, s)

expand_raw_word-ends_example :
    (expand_raw_word (λ s. s) echo (codes "a^$x^`{ls}") session).0 ≢ out_of_fuel
expand_raw_word-ends_example = expand_raw_word-ends (λ s. s) echo (codes "a^$x^`{ls}") session

is_success-pipeline_example :
    is_success (pipeline [] (codes "0|1")) ≡ (is_success [] && is_success (codes "0|1"))
is_success-pipeline_example = is_success-pipeline [] (codes "0|1")

abbrev ab : List Chars
ab = codes "a" ∷ codes "b" ∷ []

join-split_caret_parts_example :
    join_with caret (split_caret_parts (codes "a^'b^c'^d")) ≡ codes "a^'b^c'^d"
join-split_caret_parts_example = join-split_caret_parts (codes "a^'b^c'^d")

-- A variable without a value comes back with an empty one.
empty_comes_back : import_values (export_values []) ≡ [] ∷ []
unfolding import_values export_values
empty_comes_back = refl

expanded :
    expand_raw_word (λ s. s) echo (codes "a^$x") session
    ≡ (ok (codes "a1" ∷ codes "a2" ∷ []), session)
unfolding expand_raw_word bytes_eq lookup
expanded = refl

abbrev one_file : Chars → Vars → Option (List Chars) × Vars
one_file path s = (some (codes "f" ∷ []), s)

-- Quotes do not keep a star from standing for the files.
quoted_star :
    (expand_words (λ s. s) echo one_file (λ s. codes ".") (quoted (codes "*") ∷ []) session).0
    ≡ codes "f" ∷ []
unfolding expand_words bytes_eq star.Rc.Quoting.doubled
quoted_star = refl

-- A pattern with a slash before it is expanded to names that have none, in the current directory, since
-- an adapter's `read_dir` takes `.` for that one.
absolute_star :
    (expand_words (λ s. s) echo one_file (λ s. codes ".") (codes "/*" ∷ []) session).0
    ≡ codes "f" ∷ []
unfolding expand_words bytes_eq
absolute_star = refl

abbrev no_debug : TokenKind → Chars
no_debug kind = []

-- `a } b`
abbrev stray : List Token
stray =
    token (TokenKind.word (codes "a")) 0 1
    ∷ token TokenKind.rbrace 2 3
    ∷ token (TokenKind.word (codes "b")) 4 5
    ∷ []

parse_script-Nested_example :
    Fine {T = Nodes × ParserState}
      (λ r. Nested [] stray [] r.1.tokens × (sees_or_end closes_group r.1.tokens ≡ true))
      (parse_script no_debug (record { tokens = stray; here_docs = [] }))
parse_script-Nested_example = parse_script-Nested no_debug stray []

-- Behind a brace that closes nothing the rest of a script is dropped.
stray_brace :
    parse_script no_debug (record { tokens = stray; here_docs = [] })
    ≡ ok (
      Nodes.cons
          (Node.simple (SimpleCommand.command [] (new_word (codes "a") ∷ []) Redirects.no_redirect))
          Nodes.nil,
      record {
        tokens = token TokenKind.rbrace 2 3 ∷ token (TokenKind.word (codes "b")) 4 5 ∷ [];
        here_docs = [];
      },
    )
unfolding parse_script bytes_eq star.Rc.Chars.split_once star.Rc.Ast.nodes_of
stray_brace = refl
