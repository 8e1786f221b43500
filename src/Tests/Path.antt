-- ===== src/Tests/Path.antt =====
-- Runs of the path functions of crates/star9-core/src/lib.rs.
use star.Base.{◌≡◌, ◌≢◌, refl, ◌⊎◌, Bytes, codes, bytes_eq, some, true, ◌++◌, ◌∷◌, if◌then◌else◌}
use star.Core.Path.{
  slash, dot, split, join, is_nil, clean_step, clean_parts, clean_path, valid_path, trim_slashes,
  starts_with_slash, ends_with_slash, is_plain, all_plain, pop, base_name, rsplit_once, parent_path,
  strip_prefix, strip_dir, relative_under,
}
use star.Core.Path.Clean.{IsSegment, valid_path-clean_path}
use star.Core.Path.Parts.{parent_path-base_name, relative_under_child, relative_under_sound}

-- `clean_path_keeps_paths_relative` of the source's tests.
clean_runs :
    (clean_path (codes "./a//b") ≡ codes "a/b")
    × (clean_path (codes "/a/b") ≡ codes "a/b")
    × (clean_path (codes "a/../../b/.") ≡ codes "b")
    × (clean_path (codes "/..") ≡ dot)
unfolding clean_path split join is_nil clean_step clean_parts pop bytes_eq trim_slashes
    starts_with_slash
clean_runs = (refl, refl, refl, refl)

abbrev abc : Bytes
abc = codes "a/b/c"

abc_valid : valid_path abc ≡ true
unfolding valid_path split is_nil bytes_eq starts_with_slash ends_with_slash all_plain is_plain
abc_valid = refl

abc_clean : clean_path abc ≡ abc
unfolding clean_path split join is_nil clean_step clean_parts pop bytes_eq trim_slashes
    starts_with_slash
abc_clean = refl

abc_ne_dot : clean_path abc ≢ dot
unfolding clean_path split join is_nil clean_step clean_parts pop bytes_eq trim_slashes
    starts_with_slash
abc_ne_dot e = cc e

parent_path-base_name_example :
    (valid_path (parent_path abc) ≡ true)
    × IsSegment (base_name (clean_path abc))
    × (clean_path abc ≡ (
        if bytes_eq (parent_path abc) dot
        then base_name (clean_path abc)
        else parent_path abc ++ slash ∷ base_name (clean_path abc)))
parent_path-base_name_example = parent_path-base_name abc abc_ne_dot

parent_run : parent_path abc ≡ codes "a/b"
unfolding parent_path rsplit_once clean_path split join is_nil clean_step clean_parts pop bytes_eq
    trim_slashes starts_with_slash
parent_run = refl

web_ne_dot : codes "#web" ≢ dot
web_ne_dot e = cc e

relative_under_child_example :
    relative_under (codes "#web") (codes "#web" ++ slash ∷ abc) ≡ some abc
relative_under_child_example = relative_under_child (codes "#web") abc web_ne_dot abc_valid

relative_run : relative_under (codes "ab") (codes "ab/./c") ≡ some (codes "c")
unfolding relative_under strip_dir strip_prefix clean_path split join is_nil clean_step clean_parts
    pop bytes_eq trim_slashes starts_with_slash
relative_run = refl

relative_under_sound_example :
    ((codes "ab" ≡ codes "ab/./c") × (codes "c" ≡ dot))
    ⊎ ((codes "ab" ≡ dot) × (codes "c" ≡ clean_path (codes "ab/./c")))
    ⊎ ((rest : Bytes) × (codes "ab/./c" ≡ codes "ab" ++ slash ∷ rest)
        × (codes "c" ≡ clean_path rest))
relative_under_sound_example = relative_under_sound (codes "ab") (codes "ab/./c") relative_run

valid_path-clean_path_example : valid_path (clean_path (codes "/../a//b/")) ≡ true
valid_path-clean_path_example = valid_path-clean_path (codes "/../a//b/")
