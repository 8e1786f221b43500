-- ===== src/Tests/Attr.antt =====
-- Runs of the conversions and of the attribute writes of crates/star9-protocol/src/p9.rs.
use star.Base.{ℕ, ◌<◌, ◌≡◌, ◌↔◌, refl, arith, Bytes, codes, [], ◌∷◌, true, List, bytes_eq}
use star.Core.Path.{
  valid_path, parent_path, base_name, is_nil, starts_with_slash, ends_with_slash, all_plain, split,
  is_plain, clean_path, join, clean_parts, clean_step,
}
use star.P9.Attr.{checked_join, join_path}
use star.P9.Attr.Laws.{checked_join-parent}
use star.P9.Xattr
use star.P9.Xattr.{XattrWriteState, Range, write_at, is_complete, record_write}
use star.P9.Xattr.Ranges.{IsNormal, covers}
use star.P9.Xattr.Content.{Overwrites, write_at-Overwrites}
use star.P9.Xattr.Complete.{IsSound, Wrote, write_at-Wrote, is_complete_iff}

abbrev joined : Bytes
joined = codes "dir/x"

checked_join-parent_example :
    (valid_path joined ≡ true) × (parent_path joined ≡ codes "dir") × (base_name joined ≡ codes "x")
unfolding valid_path checked_join bytes_eq is_nil starts_with_slash ends_with_slash all_plain split
    is_plain join_path clean_path join clean_parts clean_step
checked_join-parent_example =
    checked_join-parent (codes "dir") (codes "x") {path = joined} refl refl

abbrev ranges : List Range
ranges = record { start = 0; end = 2 } ∷ record { start = 5; end = 7 } ∷ []

ranges-IsNormal : IsNormal ranges
ranges-IsNormal = (omega arith, omega arith, (omega arith, tt, tt))

abbrev fresh : XattrWriteState
fresh = Xattr.new (codes "user.x") 0 4

fresh-IsSound : IsSound fresh
unfolding Xattr.new
fresh-IsSound = record { size = refl; normal = tt; bounded = tt }

abbrev second_half : XattrWriteState
second_half = record fresh {
  content = 0 ∷ 0 ∷ 7 ∷ 8 ∷ [];
  written = record { start = 2; end = 4 } ∷ [];
}

write_at-Wrote_example : Wrote fresh 2 (7 ∷ 8 ∷ []) (2, second_half)
unfolding write_at record_write Xattr.new
write_at-Wrote_example =
    write_at-Wrote fresh 2 (7 ∷ 8 ∷ []) {p = (2, second_half)} fresh-IsSound refl

is_complete_iff_example :
    (is_complete fresh ≡ true) ↔ ((x : ℕ) → x < fresh.expected_size → covers x fresh.written ≡ true)
is_complete_iff_example = is_complete_iff fresh fresh-IsSound

write_at-Overwrites_example : Overwrites fresh.content 2 (7 ∷ 8 ∷ []) second_half.content
unfolding write_at record_write Xattr.new
write_at-Overwrites_example =
    write_at-Overwrites fresh second_half 2 2 (7 ∷ 8 ∷ []) fresh-IsSound refl
