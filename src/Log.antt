-- ===== src/Log.antt =====
-- The log file parser of crates/core: crates/core/src/log_line_prefix.rs, the parsing state and the
-- plan builders of crates/core/src/parsing, and the read loop of crates/core/src/log_parser.rs.
pub mod Prefix
pub mod Tokens
pub mod Builders
pub mod State
pub mod Reader
pub mod Fuel
pub mod Lines
pub mod Ahead
pub mod Both
pub mod Split
pub mod Agree
pub mod Limit
mod Tests
use pg_plansight.Prelude.{
  ℕ, Bool, ◌&&◌, ◌||◌, Option, none, some, List, [], ◌∷◌, leb, ◌==◌, if◌then◌else◌,
}

-- A text is the list of its characters.
abbrev pub Text : Type 0
Text = List ℕ

-- `char::is_whitespace`
abbrev pub is_whitespace : ℕ → Bool
is_whitespace c =
    (leb 0x09 c && leb c 0x0d)
    || (c == 0x20
        || (c == 0x85
            || (c == 0xa0
                || (c == 0x1680
                    || ((leb 0x2000 c && leb c 0x200a)
                        || (c == 0x2028
                            || (c == 0x2029 || (c == 0x202f || (c == 0x205f || c == 0x3000)))))))))

unfoldable pub trim_start : Text → Text
trim_start [] = []
trim_start (c ∷ cs) = let rest = trim_start cs in if is_whitespace c then rest else c ∷ cs

-- A blank before what is left of a text is dropped with the others at its end.
abbrev pub keep_end : ℕ → Text → Text
keep_end c [] = if is_whitespace c then [] else c ∷ []
keep_end c (d ∷ ds) = c ∷ d ∷ ds

unfoldable pub trim_end : Text → Text
trim_end [] = []
trim_end (c ∷ cs) = keep_end c (trim_end cs)

unfoldable pub trim : Text → Text
trim text = trim_end (trim_start text)

unfoldable pub strip_prefix : Text → Text → Option Text
strip_prefix [] text = some text
strip_prefix (p ∷ ps) [] = none
strip_prefix (p ∷ ps) (c ∷ cs) = let rest = strip_prefix ps cs in if p == c then rest else none
