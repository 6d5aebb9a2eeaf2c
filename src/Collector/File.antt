-- ===== src/Collector/File.antt =====
-- One visit of a log file: `process_log_file` of crates/exporter/src/collector.rs.
use pg_plansight.Prelude.{
  ℕ, ◌+◌, ◌*◌, ◌%◌, ◌^◌, min, Bool, false, ◌&&◌, ◌||◌, not, Option, none, some, List, [], ◌∷◌, ltb,
  leb, ◌==◌, if◌then◌else◌,
}
use pg_plansight.Scan.Verdict.{Simd}
use pg_plansight.Collector.{
  FileState, FileRuntime, quiescent_cycles, max_parse_failures, u64_max, count_up, LogParsing,
  Result, ok, err, Metadata, FileView, Intake, ParsedRange,
}
use pg_plansight.Collector.Range.{is_compressed_file, Ranged, parse_range_blocking}

abbrev pub new_file_state : ℕ → FileState
new_file_state now = record {
  last_position = 0;
  last_modified_time = 0;
  file_size = 0;
  last_processed_at = now;
  dev = none;
  ino = none;
}

abbrev pub or_new : Option FileState → ℕ → FileState
or_new none now = new_file_state now
or_new (some file_state) now = file_state

-- `last_observed == Some((mtime, size))`
abbrev pub observed_before : Option (ℕ × ℕ) → Metadata → Bool
observed_before none m = false
observed_before (some seen) m = seen.0 == m.modified && seen.1 == m.len

unfoldable pub observe : FileRuntime → Metadata → FileRuntime
observe r m =
    if observed_before r.last_observed m
    then record r { unchanged_cycles = count_up r.unchanged_cycles }
    else record r { unchanged_cycles = 0; last_observed = some (m.modified, m.len) }

abbrev pub is_quiescent : FileRuntime → Bool
is_quiescent r = leb quiescent_cycles r.unchanged_cycles

unfoldable pub identity_changed : Option ℕ → Option ℕ → Option ℕ → Option ℕ → Bool
identity_changed (some old_dev) (some old_ino) (some new_dev) (some new_ino) =
    not (old_dev == new_dev) || not (old_ino == new_ino)
identity_changed _ _ _ _ = false

abbrev pub is_rotated : FileState → Metadata → Bool
is_rotated st m = identity_changed st.dev st.ino m.dev m.ino || ltb m.len st.file_size

unfoldable pub rotate : FileState → Metadata → FileState
rotate st m = if is_rotated st m then record st { last_position = 0; file_size = 0 } else st

unfoldable pub effective_read_budget : LogParsing → FileRuntime → ℕ
effective_read_budget config r =
    if config.max_read_bytes_per_cycle == 0
    then 0
    else min (config.max_read_bytes_per_cycle * 2 ^ min r.budget_stalls 20) u64_max

unfoldable pub window_end : Bool → ℕ → ℕ → ℕ → ℕ
window_end is_compressed budget last_position current_size =
    if is_compressed || budget == 0
    then current_size
    else min current_size (min (last_position + budget) u64_max)

-- What a visit hands on: queries whose metrics were emitted, and ranges it gave up on.
pub data Event (Queries : Type 0) : Type 0 where
  ingested : ℕ → ℕ → Queries → Event Queries
  skipped : ℕ → ℕ → Event Queries

abbrev pub exceeds_limit : LogParsing → Metadata → Bool
exceeds_limit config m =
    let max_size_bytes = config.max_file_size_mb * 1024 * 1024 % 2 ^ 64 in
    ltb 0 max_size_bytes && ltb max_size_bytes m.len

-- The state after a visit, its result (the number of plans) and its events.
pub record Visit (Grouper Queries : Type 0) : Type 0 where
  pub stored : Option FileState
  pub runtime : FileRuntime
  pub grouper : Grouper
  pub result : Result ℕ
  pub events : List (Event Queries)

-- The checkpoint of a file after a range was given up, and after one was parsed.
abbrev pub given_up : FileState → Metadata → ℕ → FileState
given_up st m now = record st {
  last_position = m.len;
  file_size = m.len;
  last_modified_time = m.modified;
  last_processed_at = now;
}

abbrev pub checkpoint : Metadata → ℕ → ℕ → FileState
checkpoint m now last_position = record {
  last_position = last_position;
  file_size = m.len;
  last_modified_time = m.modified;
  last_processed_at = now;
  dev = m.dev;
  ino = m.ino;
}

abbrev pub made_progress : {Q : Type 0} → Option (ParsedRange Q) → ℕ → Bool
made_progress none last_position = false
made_progress (some range) last_position = ltb last_position range.end_offset

unfoldable pub note_parsed : FileRuntime → Bool → FileRuntime
note_parsed r stalled = record r {
  parse_failures = 0;
  budget_stalls = if stalled then count_up r.budget_stalls else 0;
}

unfoldable pub note_failed : FileRuntime → FileRuntime
note_failed r = record r { parse_failures = count_up r.parse_failures }

module _ (s : Simd) (intake : Intake) (config : LogParsing) (view : FileView) where
  open intake use {Grouper, Queries, is_empty}

  -- A visit that ends with neither a checkpoint nor an event.
  abbrev pub unmoved : Option FileState → FileRuntime → Grouper → Result ℕ → Visit Grouper Queries
  unmoved stored r g result = record {
    stored = stored;
    runtime = r;
    grouper = g;
    result = result;
    events = [];
  }

  -- The `Err` branch.
  unfoldable pub give_up :
      Option FileState → FileState → Metadata → FileRuntime → Grouper → Visit Grouper Queries
  give_up stored st m r g =
      if ltb r.parse_failures max_parse_failures
      then unmoved stored r g (ok 0)
      else if not view.state_written
      then unmoved stored r g err
      else record {
        stored = some (given_up st m view.now);
        runtime = record r { parse_failures = 0 };
        grouper = g;
        result = ok 0;
        events = skipped st.last_position m.len ∷ [];
      }

  -- The rest after a parsed range: emit, then store the checkpoint.
  unfoldable pub commit :
      Option FileState
      → FileState
      → Metadata
      → Bool
      → FileRuntime
      → Grouper
      → ParsedRange Queries
      → Visit Grouper Queries
  commit stored st m is_compressed r g range =
      let last_position = if is_compressed then m.len else range.end_offset in
      let event = ingested st.last_position last_position range.processed_queries in
      if not (is_empty range.processed_queries) && not view.hashes_recorded
      then unmoved stored r g err
      else if not view.state_written
      then record (unmoved stored r g err) { events = event ∷ [] }
      else record {
        stored = some (checkpoint m view.now last_position);
        runtime = r;
        grouper = g;
        result = ok range.plan_count;
        events = event ∷ [];
      }

  unfoldable pub settle :
      Option FileState
      → FileState
      → Metadata
      → Bool
      → Bool
      → FileRuntime
      → Ranged s intake
      → Visit Grouper Queries
  settle stored st m is_compressed clamped r (err, g) = give_up stored st m (note_failed r) g
  settle stored st m is_compressed clamped r (ok none, g) =
      unmoved stored (note_parsed r clamped) g (ok 0)
  settle stored st m is_compressed clamped r (ok (some range), g) =
      commit stored st m is_compressed
        (note_parsed r (clamped && not (made_progress (some range) st.last_position))) g range

  -- From the read window on.
  unfoldable pub read_window :
      Option FileState → FileState → Metadata → Bool → FileRuntime → Grouper → Visit Grouper Queries
  read_window stored st m is_compressed r g =
      let budget = effective_read_budget config r in
      let read_end = window_end is_compressed budget st.last_position m.len in
      let clamped = ltb read_end m.len in
      let hold_back = (not (is_quiescent r) || clamped) && not is_compressed in
      settle stored st m is_compressed clamped r
        (parse_range_blocking s intake g view.content st.last_position read_end hold_back)

  -- From the test that there is new content on.
  unfoldable pub read_new :
      Option FileState → FileState → Metadata → FileRuntime → Grouper → Visit Grouper Queries
  read_new stored st m r g =
      let is_compressed = is_compressed_file view.content in
      if leb m.len st.last_position
      then unmoved stored r g (ok 0)
      else if is_compressed && ltb 0 st.last_position
      then unmoved stored r g (ok 0)
      else read_window stored st m is_compressed r g

  -- From the size limit on.
  unfoldable pub process_present :
      Metadata → Option FileState → FileRuntime → Grouper → Visit Grouper Queries
  process_present m stored r g =
      if exceeds_limit config m
      then unmoved stored r g (ok 0)
      else if not view.state_read
      then unmoved stored r g err
      else read_new stored (rotate (or_new stored view.now) m) m (observe r m) g

  abbrev pub process_stated :
      Option Metadata → Option FileState → FileRuntime → Grouper → Visit Grouper Queries
  process_stated none stored r g = unmoved stored r g err
  process_stated (some m) stored r g = process_present m stored r g

  unfoldable pub process_log_file : Option FileState → FileRuntime → Grouper → Visit Grouper Queries
  process_log_file stored r g = process_stated view.metadata stored r g
