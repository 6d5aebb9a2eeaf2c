-- ===== src/Collector.antt =====
-- crates/exporter/src/collector.rs: how the exporter follows log files that grow and rotate.
pub mod Boundary
pub mod Lines
pub mod Entries
pub mod Reach
pub mod Range
pub mod File
pub mod Reads
pub mod Moves
pub mod History
pub mod Progress
pub mod Settles
pub mod Liveness
pub mod Failures
pub mod Remaining
pub mod Cycle
pub mod Separate
mod Tests
use pg_plansight.Prelude.{ℕ, ◌+◌, ◌-◌, ◌^◌, min, Bool, Option, none, List}

-- `state::FileState`, under the path of its file.
pub record FileState : Type 0 where
  pub last_position : ℕ
  pub last_modified_time : ℕ
  pub file_size : ℕ
  pub last_processed_at : ℕ
  pub dev : Option ℕ
  pub ino : Option ℕ

pub record FileRuntime : Type 0 where
  pub last_observed : Option (ℕ × ℕ)
  pub unchanged_cycles : ℕ
  pub parse_failures : ℕ
  pub budget_stalls : ℕ

-- `FileRuntime::default`.
abbrev pub new_runtime : FileRuntime
new_runtime = record {
  last_observed = none;
  unchanged_cycles = 0;
  parse_failures = 0;
  budget_stalls = 0;
}

abbrev pub quiescent_cycles : ℕ
quiescent_cycles = 2

abbrev pub max_parse_failures : ℕ
max_parse_failures = 3

abbrev pub u32_max : ℕ
u32_max = 2 ^ 32 - 1

abbrev pub u64_max : ℕ
u64_max = 2 ^ 64 - 1

-- `u32::saturating_add(1)`
abbrev pub count_up : ℕ → ℕ
count_up n = min (n + 1) u32_max

-- `config.log_parsing`
pub record LogParsing : Type 0 where
  pub max_file_size_mb : ℕ
  pub max_read_bytes_per_cycle : ℕ

-- An error carries a text, which is not modelled.
pub data Result (A : Type 0) : Type 0 where
  ok : A → Result A
  err : Result A

-- What `stat` says of a file, the time of its last change in seconds.
pub record Metadata : Type 0 where
  pub modified : ℕ
  pub len : ℕ
  pub dev : Option ℕ
  pub ino : Option ℕ

-- What one call finds outside: the file's metadata, none when they cannot be read; whether the time
-- of the last change can be made of them, which `process_log_file` asks for at once, so that
-- `metadata` is none for it, and `process_remaining_content` at its end; the file's bytes as they
-- are when they are read, none when it cannot be opened; whether the state database can be read and
-- written; whether the query hashes can be recorded; and the clock.
pub record FileView : Type 0 where
  pub metadata : Option Metadata
  pub modified_read : Bool
  pub content : Option (List ℕ)
  pub state_read : Bool
  pub state_written : Bool
  pub hashes_recorded : Bool
  pub now : ℕ

-- How a parse into a grouper ends: a failed one may leave plans in it.
pub data Parsing (Grouper : Type 0) : Type 0 where
  parsed : Grouper → Parsing Grouper
  failed : Grouper → Parsing Grouper
  panicked : Parsing Grouper

-- What the collector asks of the parser and the grouper of crates/core, with the decompressors.
-- `fresh` is a default grouper with the configured cap.
pub record Intake : Type 1 where
  pub Grouper : Type 0
  pub Queries : Type 0
  pub parse_into_grouper : List ℕ → Grouper → Parsing Grouper
  pub accepted : Grouper → ℕ
  pub take_groups : Grouper → Queries × Grouper
  pub fresh : Grouper
  pub is_empty : Queries → Bool
  pub gunzip : List ℕ → List ℕ
  pub bunzip : List ℕ → List ℕ

pub record ParsedRange (Queries : Type 0) : Type 0 where
  pub end_offset : ℕ
  pub plan_count : ℕ
  pub processed_queries : Queries
