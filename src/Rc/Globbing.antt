-- ===== src/Rc/Globbing.antt =====
-- How a session of crates/star9-rc/src/lib.rs finds the paths that a pattern stands for. The state of the
-- session and its host is `S`; what lists a directory is a parameter.
use star.Base.{
  Bool, true, false, not, ◌||◌, ◌&&◌, ◌==◌, List, [], ◌∷◌, ◌++◌, Option, none, some, codes,
  bytes_eq, if◌then◌else◌,
}
use star.Rc.Chars.{Chars}
use star.Rc.Scan.{is_next}
use star.Rc.Glob.{pattern_match}
use star.Rc.Values.{split_at, drop_empty}
use star.Vfs.Map.{bytes_lt}

-- `has_glob_chars`
unfoldable pub has_glob_chars : Chars → Bool
has_glob_chars [] = false
has_glob_chars (c ∷ cs) = c == b'*' || c == b'?' || c == b'[' || has_glob_chars cs

-- `trim_start_matches('/')`
unfoldable pub trim_start : Chars → Chars
trim_start [] = []
trim_start (c ∷ cs) = let rest = trim_start cs in if c == b'/' then rest else c ∷ cs

-- `trim_end_matches('/')`
unfoldable pub trim_end : Chars → Chars
trim_end [] = []
trim_end (c ∷ cs) = elim (trim_end cs) [
  | [] ↦ if c == b'/' then [] else c ∷ []
  | d ∷ ds ↦ c ∷ d ∷ ds
]

unfoldable pub is_nil : Chars → Bool
is_nil [] = true
is_nil (c ∷ cs) = false

unfoldable pub join_path : Chars → Chars → Chars
unfolding is_nil trim_end
join_path base leaf =
    if is_nil base || bytes_eq base (codes ".")
    then leaf
    else if is_nil leaf
    then base
    else trim_end base ++ b'/' ∷ leaf

-- `sort`, and `dedup` of a sorted list. Texts are in the order of their characters.
unfoldable pub insert_sorted : Chars → List Chars → List Chars
insert_sorted v [] = v ∷ []
insert_sorted v (w ∷ ws) =
    let behind = insert_sorted v ws in if bytes_lt w v then w ∷ behind else v ∷ w ∷ ws

unfoldable pub sort : List Chars → List Chars
unfolding insert_sorted
sort [] = []
sort (v ∷ vs) = insert_sorted v (sort vs)

unfoldable pub dedup : List Chars → List Chars
dedup [] = []
dedup (v ∷ []) = v ∷ []
dedup (v ∷ w ∷ ws) = let rest = dedup (w ∷ ws) in if bytes_eq v w then rest else v ∷ rest

module _ {S : Type 0} (read_dir : Chars → S → Option (List Chars) × S) where
  -- The `continue` at a name that begins with a dot.
  unfoldable pub is_hidden : Chars → Chars → Bool
  unfolding is_next
  is_hidden part clean = is_next b'.' clean && not (is_next b'.' part)

  -- The loop over the entries of a directory.
  unfoldable pub glob_entries :
      Chars → (Chars → S → List Chars × S) → List Chars → S → List Chars × S
  unfolding is_hidden trim_end pattern_match
  glob_entries part next [] s = ([], s)
  glob_entries part next (entry ∷ entries) s =
      let clean = trim_end entry in
      if is_hidden part clean || not (pattern_match part clean)
      then glob_entries part next entries s
      else (let (found, s1) = next clean s in
          let (more, s2) = glob_entries part next entries s1 in (found ++ more, s2))

  unfoldable pub listed :
      Option (List Chars) × S → (List Chars → S → List Chars × S) → List Chars × S
  listed (none, s) next = ([], s)
  listed (some entries, s) next = next entries s

  unfoldable pub glob_inner : Chars → List Chars → Chars → S → List Chars × S
  unfolding glob_entries listed join_path has_glob_chars is_nil
  glob_inner base [] prefix s = ((if is_nil prefix then codes "." else prefix) ∷ [], s)
  glob_inner base (part ∷ parts) prefix s = elim (has_glob_chars part) [
    | false ↦ glob_inner (join_path base part) parts (join_path prefix part) s
    | true ↦ listed (read_dir base s) (
        glob_entries part
          (λ clean. glob_inner (join_path base clean) parts (join_path prefix clean)))
  ]

  unfoldable pub glob : Chars → Chars → S → List Chars × S
  unfolding glob_inner trim_start split_at drop_empty sort dedup is_next
  glob current_dir pattern s =
      let parts = drop_empty (split_at (λ c. c == b'/') (trim_start pattern)) in
      let base = if is_next b'/' pattern then codes "." else current_dir in
      let (found, s') = glob_inner base parts [] s in (dedup (sort found), s')

  unfoldable pub matches_or_value : Chars → List Chars × S → List Chars × S
  matches_or_value value ([], s) = (value ∷ [], s)
  matches_or_value value (m ∷ ms, s) = (m ∷ ms, s)

  unfoldable pub expand_glob_or_literal : (S → Chars) → Chars → S → List Chars × S
  unfolding glob matches_or_value has_glob_chars
  expand_glob_or_literal current_dir value s = elim (has_glob_chars value) [
    | false ↦ (value ∷ [], s)
    | true ↦ matches_or_value value (glob (current_dir s) value s)
  ]
