-- ===== src/Collector/Boundary.antt =====
-- `last_entry_boundary` of crates/exporter/src/collector.rs, with `is_log_line_start` of
-- crates/core/src/parser_utils.rs.
use pg_plansight.Prelude.{
  ℕ, ◌+◌, Bool, true, false, ◌&&◌, Option, none, some, List, [], ◌∷◌, ◌==◌, if◌then◌else◌, length,
}
use pg_plansight.Scan.Verdict.{Verdict, matched, no_match, unsure, Simd}
use pg_plansight.Scan.Timestamp.{timestamp_core_simd}

abbrev pub newline : ℕ
newline = 10

-- `[u8]::split_inclusive` at newlines.
abbrev pub prepend : ℕ → List (List ℕ) → List (List ℕ)
prepend b [] = (b ∷ []) ∷ []
prepend b (line ∷ lines) = (b ∷ line) ∷ lines

unfoldable pub split_inclusive : List ℕ → List (List ℕ)
split_inclusive [] = []
split_inclusive (b ∷ bs) =
    let lines = split_inclusive bs in if b == newline then (b ∷ []) ∷ lines else prepend b lines

-- `line.last() == Some(&b'\n')`
abbrev pub ends_line : List ℕ → Bool
ends_line [] = false
ends_line (b ∷ []) = b == newline
ends_line (b ∷ c ∷ bs) = ends_line (c ∷ bs)

abbrev pub is_matched : Verdict → Bool
is_matched (matched n) = true
is_matched no_match = false
is_matched unsure = false

module _ (s : Simd) where
  abbrev pub is_log_line_start : List ℕ → Bool
  is_log_line_start line = is_matched (timestamp_core_simd s line)

  abbrev pub is_timestamped_line : List ℕ → Bool
  is_timestamped_line line = is_log_line_start line

  -- The loop over the lines.
  unfoldable pub scan_lines : List (List ℕ) → ℕ → Option ℕ → Option ℕ
  scan_lines [] offset last = last
  scan_lines (line ∷ lines) offset last =
      scan_lines lines (offset + length line)
        (if ends_line line && is_timestamped_line line then some offset else last)

  unfoldable pub last_entry_boundary : List ℕ → Option ℕ
  last_entry_boundary bytes = scan_lines (split_inclusive bytes) 0 none
