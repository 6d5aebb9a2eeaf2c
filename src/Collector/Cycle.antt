-- ===== src/Collector/Cycle.antt =====
-- One cycle over all files: `collect_metrics`, `collect_remaining_metrics` and the retention pass
-- of crates/exporter/src/collector.rs.
-- keys: bytes_key
use pg_plansight.Prelude.{
  ℕ, ◌+◌, Bool, ◌&&◌, not, Option, none, some, List, [], ◌∷◌, ltb, ◌==◌, if◌then◌else◌, bytes_eq,
  lookup, put, bytes_key,
}
use pg_plansight.Grouping.Plans.{Bytes}
use pg_plansight.Scan.Verdict.{Simd, any}
use pg_plansight.Collector.{
  FileState, FileRuntime, new_runtime, LogParsing, Result, ok, err, FileView, Intake,
}
use pg_plansight.Collector.File.{Visit, process_log_file}
use pg_plansight.Collector.Remaining.{process_remaining_content}

-- The part of `LogCollector` that changes, with the `processed_files` table of the state database.
-- A path without runtime state has the default one.
pub record LogCollector (Grouper : Type 0) : Type 0 where
  pub processed_files : List (Bytes × FileState)
  pub file_runtime : List (Bytes × FileRuntime)
  pub grouper : Grouper

abbrev pub runtime_of : Option FileRuntime → FileRuntime
runtime_of none = new_runtime
runtime_of (some r) = r

abbrev pub keep_state :
    Bytes → Option FileState → List (Bytes × FileState) → List (Bytes × FileState)
keep_state path none files = files
keep_state path (some st) files = put path st files

-- Membership in the set of live paths.
abbrev pub contains : Bytes → List Bytes → Bool
contains path = any (bytes_eq path)

-- `HashMap::retain`, by the key.
unfoldable pub retain : List Bytes → List (Bytes × FileRuntime) → List (Bytes × FileRuntime)
retain live [] = []
retain live (entry ∷ entries) =
    if contains entry.0 live then entry ∷ retain live entries else retain live entries

-- What a cycle reports.
pub record Totals : Type 0 where
  pub total_processed : ℕ
  pub total_errors : ℕ

abbrev pub count_result : Totals → Result ℕ → Totals
count_result t (ok processed) = record t { total_processed = t.total_processed + processed }
count_result t err = record t { total_errors = t.total_errors + 1 }

module _ (s : Simd) (intake : Intake) (config : LogParsing) (look : Bytes → FileView) where
  open intake use {Grouper, Queries}

  -- Visiting a file by its own states.
  abbrev pub Visitor : Type 0
  Visitor = FileView → Option FileState → FileRuntime → Grouper → Visit Grouper Queries

  abbrev pub visit_of : Visitor → LogCollector Grouper → Bytes → Visit Grouper Queries
  visit_of visit c path =
      visit (look path) (lookup path c.processed_files) (runtime_of (lookup path c.file_runtime))
        c.grouper

  abbrev pub after_visit :
      LogCollector Grouper → Bytes → Visit Grouper Queries → LogCollector Grouper
  after_visit c path v = record {
    processed_files = keep_state path v.stored c.processed_files;
    file_runtime = put path v.runtime c.file_runtime;
    grouper = v.grouper;
  }

  -- The loop over the paths; an error is counted, and the loop goes on.
  unfoldable pub visit_paths :
      Visitor → List Bytes → LogCollector Grouper → Totals → LogCollector Grouper × Totals
  visit_paths visit [] c t = (c, t)
  visit_paths visit (path ∷ paths) c t =
      let v = visit_of visit c path in
      visit_paths visit paths (after_visit c path v) (count_result t v.result)

  abbrev pub no_totals : Totals
  no_totals = record { total_processed = 0; total_errors = 0 }

  abbrev pub log_visitor : Visitor
  log_visitor view = process_log_file s intake config view

  abbrev pub remaining_visitor : Visitor
  remaining_visitor view = process_remaining_content s intake config view

  -- `exporter_up`, and the readiness signal.
  abbrev pub exporter_up : Totals → Bool
  exporter_up t = t.total_errors == 0

  -- The paths are those of `expand_log_paths`.
  unfoldable pub collect_metrics : List Bytes → LogCollector Grouper → LogCollector Grouper × Totals
  collect_metrics log_paths c =
      visit_paths log_visitor log_paths
        (record c { file_runtime = retain log_paths c.file_runtime }) no_totals

  unfoldable pub collect_remaining_metrics :
      List Bytes → LogCollector Grouper → LogCollector Grouper × Totals
  collect_remaining_metrics log_paths c = visit_paths remaining_visitor log_paths c no_totals

-- `cleanup_blocking` on the table of files.
unfoldable pub cleanup :
    ℕ → (Bytes → Bool) → List (Bytes × FileState) → ℕ × List (Bytes × FileState)
cleanup cutoff path_exists [] = (0, [])
cleanup cutoff path_exists ((path, st) ∷ files) =
    let (removed, kept) = cleanup cutoff path_exists files in
    if ltb st.last_processed_at cutoff && not (path_exists path)
    then (removed + 1, kept)
    else (removed, (path, st) ∷ kept)
