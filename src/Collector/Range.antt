-- ===== src/Collector/Range.antt =====
-- One byte range of a log file: `read_file_range`, `is_compressed_file` and
-- `parse_range_blocking` of crates/exporter/src/collector.rs, and `create_reader_with_range` of
-- crates/core/src/log_parser.rs.
use pg_plansight.Prelude.{
  ℕ, zero, suc, ◌+◌, ◌-◌, Bool, true, false, ◌&&◌, ◌||◌, Option, none, some, List, ◌∷◌, ltb, leb,
  ◌==◌, if◌then◌else◌, length, take, drop,
}
use pg_plansight.Scan.Verdict.{Simd}
use pg_plansight.Collector.{Result, ok, err, Parsing, parsed, failed, panicked, Intake, ParsedRange}
use pg_plansight.Collector.Boundary.{last_entry_boundary}

-- Fewer bytes when the file has shrunk.
unfoldable pub read_file_range : List ℕ → ℕ → ℕ → List ℕ
read_file_range content start end = take (end - start) (drop start content)

-- The first bytes of a file of at least three, against the magic numbers.
unfoldable pub is_gzip : List ℕ → Bool
is_gzip (a ∷ b ∷ c ∷ rest) = a == 0x1f && b == 0x8b
is_gzip _ = false

unfoldable pub is_bzip2 : List ℕ → Bool
is_bzip2 (a ∷ b ∷ c ∷ rest) = a == b'B' && (b == b'Z' && c == b'h')
is_bzip2 _ = false

unfoldable pub is_compressed_file : Option (List ℕ) → Bool
is_compressed_file none = false
is_compressed_file (some content) = is_gzip content || is_bzip2 content

module _ (intake : Intake) where
  open intake use {gunzip, bunzip}

  -- The bytes that the reader yields.
  unfoldable pub create_reader_with_range : List ℕ → ℕ → ℕ → Result (List ℕ)
  create_reader_with_range content start_offset end_pos =
      if ltb (length content) start_offset
      then err
      else if ltb (length content) end_pos
      then err
      else if leb end_pos start_offset
      then err
      else if start_offset == 0 && is_gzip content
      then ok (gunzip content)
      else if start_offset == 0 && is_bzip2 content
      then ok (bunzip content)
      else ok (read_file_range content start_offset end_pos)

module _ (s : Simd) (intake : Intake) where
  open intake use {Grouper, Queries, parse_into_grouper, accepted, take_groups, fresh}

  abbrev pub Ranged : Type 0
  Ranged = Result (Option (ParsedRange Queries)) × Grouper

  -- An error discards what the grouper holds.
  abbrev pub discard : Grouper → Ranged
  discard g = (err, (take_groups g).1)

  -- After the parser: the groups are taken; a panic loses the grouper.
  unfoldable pub collect_range : Parsing Grouper → ℕ → Ranged
  collect_range (parsed g) parse_end = (
    ok (
        some (record {
          end_offset = parse_end;
          plan_count = accepted g;
          processed_queries = (take_groups g).0;
        })),
    (take_groups g).1,
  )
  collect_range (failed g) parse_end = discard g
  collect_range panicked parse_end = (err, fresh)

  -- The hold-back path: up to the last complete line that starts an entry, if that is not the
  -- range's first.
  unfoldable pub parse_held_back : Grouper → ℕ → List ℕ → Option ℕ → Ranged
  parse_held_back g start bytes none = (ok none, g)
  parse_held_back g start bytes (some zero) = (ok none, g)
  parse_held_back g start bytes (some (suc b)) =
      collect_range (parse_into_grouper (take (suc b) bytes) g) (start + suc b)

  -- The flush path.
  unfoldable pub parse_reader : Grouper → ℕ → Result (List ℕ) → Ranged
  parse_reader g end err = discard g
  parse_reader g end (ok bytes) = collect_range (parse_into_grouper bytes g) end

  unfoldable pub parse_range_blocking : Grouper → Option (List ℕ) → ℕ → ℕ → Bool → Ranged
  parse_range_blocking g none start end hold_back = discard g
  parse_range_blocking g (some content) start end true =
      let bytes = read_file_range content start end in
      parse_held_back g start bytes (last_entry_boundary s bytes)
  parse_range_blocking g (some content) start end false =
      parse_reader g end (create_reader_with_range intake content start end)
