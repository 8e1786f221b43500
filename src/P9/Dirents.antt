-- ===== src/P9/Dirents.antt =====
-- `encode_dirents` and `decode_dirents` of crates/star9-protocol/src/p9.rs.
use star.Base.{List, [], ◌∷◌, Bytes}
use star.Core.Error.{Result, ok, ◌>>=◌}
use star.P9.Wire.{put_u8, put_u64, put_string}
use star.P9.Types.{NinePDirent, encode_qid}

unfoldable pub encode_dirents_from : Bytes → List NinePDirent → Result Bytes
encode_dirents_from out [] = ok out
encode_dirents_from out (d ∷ ds) = do
  out' ← put_string (put_u8 (put_u64 (encode_qid out d.qid) d.offset) d.typ) d.name
  encode_dirents_from out' ds

unfoldable pub encode_dirents : List NinePDirent → Result Bytes
unfolding encode_dirents_from
encode_dirents dirents = encode_dirents_from [] dirents
