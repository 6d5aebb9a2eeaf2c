-- ===== src/Collector/Tests.antt =====
-- Runs of the collector model (crates/exporter/src/collector.rs), with a parser that hands on the
-- bytes that it is given.
-- keys: bytes_key
use pg_plansight.Prelude.{
  ℕ, zero, suc, ◌≤◌, ◌≡◌, refl, ◌↔◌, inr, true, false, none, some, List, [], ◌∷◌, ◌++◌, arith, ◌==◌,
  length, take, replicate, length-replicate, lookup, bytes_key,
}
use pg_plansight.Scan.Verdict.{zip_with, choose_lanes}
use pg_plansight.Scan.Plain.{codes, fit, lists}
use pg_plansight.Scan.Timestamp.{timestamp_core_simd, ts_core_kernel, ts_window_matches}
use pg_plansight.Grouping.Plans.{Bytes}
use pg_plansight.Collector.{new_runtime, LogParsing, Metadata, FileView, parsed, failed, Intake}
use pg_plansight.Collector.Boundary.{split_inclusive, scan_lines, last_entry_boundary}
use pg_plansight.Collector.Entries.{EntryStart, last_entry_boundary_lem}
use pg_plansight.Collector.Range.{
  is_gzip, is_bzip2, is_compressed_file, read_file_range, collect_range, create_reader_with_range,
  parse_held_back, parse_reader, parse_range_blocking,
}
use pg_plansight.Collector.File.{
  skipped, observe, identity_changed, rotate, effective_read_budget, window_end, note_failed,
  give_up, settle, read_window, read_new, process_present, process_log_file,
}
use pg_plansight.Collector.Reads.{Empties}
use pg_plansight.Collector.Moves.{position, Follows, Chain}
use pg_plansight.Collector.History.{visit_all, visit_all-Chain}
use pg_plansight.Collector.Liveness.{Steady, AllSteady, visit_all-reaches_end}
use pg_plansight.Collector.Failures.{AllFail, visit_all_gives_up}
use pg_plansight.Collector.Cycle.{LogCollector, contains, log_visitor, collect_metrics}
use pg_plansight.Collector.Separate.{Visited, collect_metrics-separate}

abbrev echo : Intake
echo = record {
  Grouper = List ℕ;
  Queries = List ℕ;
  parse_into_grouper = λ bytes g. parsed (g ++ bytes);
  accepted = length;
  take_groups = λ g. (g, []);
  fresh = [];
  is_empty = λ q. length q == 0;
  gunzip = λ bytes. bytes;
  bunzip = λ bytes. bytes;
}

abbrev config : LogParsing
config = record { max_file_size_mb = 1; max_read_bytes_per_cycle = 40 }

abbrev first_line : List ℕ
first_line = codes "2024-01-02 03:04:05 LOG:  a\n"

abbrev log : List ℕ
log = first_line ++ codes "2024-01-02 03:04:06 LOG:  b\nx"

abbrev seen : ℕ → Metadata
seen len = record { modified = 7; len = len; dev = some 1; ino = some 2 }

abbrev view : ℕ → FileView
view len = record {
  metadata = some (seen len);
  modified_read = true;
  content = some (take len log);
  state_read = true;
  state_written = true;
  hashes_recorded = true;
  now = 9;
}

boundary : last_entry_boundary lists log ≡ some (length first_line)
unfolding last_entry_boundary scan_lines split_inclusive timestamp_core_simd ts_core_kernel
    ts_window_matches zip_with choose_lanes replicate fit
boundary = refl

last_entry_boundary_example :
    ((last_entry_boundary lists log ≡ some 28)
      ↔ (EntryStart lists log 28 × ((j : ℕ) → EntryStart lists log j → j ≤ 28)))
    × ((last_entry_boundary lists log ≡ none) ↔ ((j : ℕ) → ¬ EntryStart lists log j))
last_entry_boundary_example = last_entry_boundary_lem lists log 28

-- The file grows twice, and the third visit cannot open it.
abbrev growing : List FileView
growing = view 30 ∷ view 57 ∷ record (view 57) { content = none } ∷ view 57 ∷ []

plain : is_compressed_file (some log) ≡ false
unfolding is_compressed_file is_gzip is_bzip2
plain = refl

abbrev IsNil : List ℕ → Type 0
IsNil g = g ≡ []

echo-Empties : Empties echo IsNil
echo-Empties = record { by_take = λ g. refl; at_first = refl }

visit_all-Chain_example :
    let after = visit_all lists echo config growing none new_runtime [] in
    Chain lists echo IsNil log 0 after.events (position after.stored)
    × Follows (some 1) (some 2) 57 after.stored
    × IsNil after.grouper
visit_all-Chain_example =
    visit_all-Chain lists echo config IsNil echo-Empties log plain (some 1) (some 2) 0 growing none
      new_runtime []
      (
        refl,
        (30, refl),
        (refl, refl, omega arith),
        (
          refl,
          (57, refl),
          (refl, refl, omega arith),
          (refl, tt, (refl, refl, omega arith), (refl, (57, refl), (refl, refl, omega arith), tt)),
        ),
      )
      tt refl

-- A file of two bytes.
abbrev short : FileView
short = record (view 2) { content = some (b'h' ∷ b'i' ∷ []) }

short-Steady : Steady (seen 2) short
unfolding is_compressed_file is_gzip is_bzip2
short-Steady = record {
  metadata = refl;
  state_read = refl;
  state_written = refl;
  hashes_recorded = refl;
  plain = refl;
}

replicate-AllSteady :
    (n : ℕ) (m : Metadata) (v : FileView) → Steady m v → AllSteady m (replicate n v)
unfolding replicate
replicate-AllSteady zero m v steady = tt
replicate-AllSteady (suc n) m v steady = (steady, replicate-AllSteady n m v steady)

visit_all-reaches_end_example :
    position (visit_all lists echo config (replicate 314 short) none new_runtime []).stored ≡ 2
visit_all-reaches_end_example =
    visit_all-reaches_end lists echo config (seen 2) refl (omega arith) (inr (omega arith))
      (replicate 314 short) none new_runtime []
      (replicate-AllSteady 314 (seen 2) short short-Steady) tt
      (omega (arith, length-replicate 314 short))

-- A parser that finds no log in the bytes, after it has kept some, and whole files at once.
abbrev broken : Intake
broken = record echo { parse_into_grouper = λ bytes g. failed (g ++ bytes) }

abbrev at_once : LogParsing
at_once = record config { max_read_bytes_per_cycle = 0 }

-- The second visit cannot open the file.
abbrev failing : List FileView
failing = view 57 ∷ record (view 57) { content = none } ∷ view 57 ∷ []

view-Steady : Steady (seen 57) (view 57)
unfolding is_compressed_file is_gzip is_bzip2
view-Steady = record {
  metadata = refl;
  state_read = refl;
  state_written = refl;
  hashes_recorded = refl;
  plain = refl;
}

unread-Steady : Steady (seen 57) (record (view 57) { content = none })
unfolding is_compressed_file
unread-Steady = record {
  metadata = refl;
  state_read = refl;
  state_written = refl;
  hashes_recorded = refl;
  plain = refl;
}

failing-AllFail : AllFail lists broken at_once (seen 57) failing none new_runtime []
unfolding create_reader_with_range parse_reader parse_range_blocking parse_held_back collect_range
    read_file_range last_entry_boundary scan_lines split_inclusive timestamp_core_simd
    ts_core_kernel ts_window_matches zip_with choose_lanes replicate fit process_log_file
    process_present read_new read_window settle give_up note_failed observe rotate identity_changed
    effective_read_budget window_end is_compressed_file is_gzip is_bzip2
failing-AllFail = ((view-Steady, refl), ((unread-Steady, refl), ((view-Steady, refl), tt)))

visit_all_gives_up_example :
    let two = view 57 ∷ record (view 57) { content = none } ∷ [] in
    let second = visit_all lists broken at_once two none new_runtime [] in
    let third = visit_all lists broken at_once failing none new_runtime [] in
    (second.stored ≡ none)
    × (second.events ≡ [])
    × (third.stored
        ≡ some (record {
          last_position = 57;
          file_size = 57;
          last_modified_time = 7;
          last_processed_at = 9;
          dev = none;
          ino = none;
        }))
    × (third.events ≡ skipped 0 57 ∷ [])
    × (third.runtime.parse_failures ≡ 0)
visit_all_gives_up_example =
    visit_all_gives_up lists broken at_once (seen 57) refl (view 57)
      (record (view 57) { content = none }) (view 57) none new_runtime [] failing-AllFail tt
      (omega arith) refl

abbrev paths : List Bytes
paths = codes "a.log" ∷ codes "b.log" ∷ []

abbrev idle : LogCollector (List ℕ)
idle = record { processed_files = []; file_runtime = []; grouper = [] }

collect_metrics-separate_example :
    let look = λ (path : Bytes). view 57 in
    let after = (collect_metrics lists echo config look paths idle).0 in
    let b = codes "b.log" in
    (contains b paths ≡ true
      → Visited lists echo config look
          (log_visitor lists echo config look)
          b
          none
          new_runtime
          after)
    × (contains b paths ≡ false
        → (lookup b after.processed_files ≡ none) × (lookup b after.file_runtime ≡ none))
unfolding lookup
collect_metrics-separate_example =
    collect_metrics-separate lists echo config (λ path. view 57) (codes "b.log") paths idle
      (refl, (refl, tt))
