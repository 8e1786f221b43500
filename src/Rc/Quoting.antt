-- ===== src/Rc/Quoting.antt =====
-- A quoted text of crates/star9-rc/src/lib.rs is read back as it was.
use star.Base.{◌==◌, [], ◌∷◌, ◌++◌, if◌then◌else◌}
use star.Rc.Chars.{Chars}
use star.Rc.Scan.{quote}
use star.Rc.Vars.{Vars}

-- A text with its quotes doubled, and what rc writes for the text.
unfoldable pub doubled : Chars → Chars
doubled [] = []
doubled (c ∷ cs) = let rest = doubled cs in if c == quote then quote ∷ quote ∷ rest else c ∷ rest

abbrev pub quoted : Chars → Chars
quoted text = quote ∷ (doubled text ++ quote ∷ [])

-- The closing quote is behind the text.
abbrev closed : Chars → Chars
closed text = doubled text ++ quote ∷ []
