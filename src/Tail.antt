-- ===== src/Tail.antt =====
-- How the worker of crates/pg_extension/src/bgworker.rs follows a log file: `read_new_complete` and
-- `flush_cycle`.
pub mod Reads
pub mod Stall
mod Tests
use pg_plansight.Prelude.{
  ℕ, ◌+◌, ◌-◌, ◌*◌, min, Bool, false, ◌&&◌, ◌||◌, not, Option, none, some, List, [], ◌∷◌, ◌++◌, ltb,
  leb, if◌then◌else◌, length, take, drop, bytes_eq,
}
use pg_plansight.Scan.Plain.{codes}
use pg_plansight.Scan.Verdict.{Simd}
use pg_plansight.Collector.Boundary.{split_inclusive, is_log_line_start}

abbrev pub max_read_bytes : ℕ
max_read_bytes = 128 * 1024 * 1024

-- `contains` of `is_entry_header`: some window of the needle's length is the needle.
unfoldable pub contains : List ℕ → List ℕ → Bool
contains [] needle = false
contains (b ∷ bs) needle = bytes_eq (take (length needle) (b ∷ bs)) needle || contains bs needle

-- The variables of the loop of `last_complete_boundary`.
pub record Headers : Type 0 where
  pub last_header : Option ℕ
  pub header_count : ℕ
  pub pos : ℕ

abbrev pub no_headers : Headers
no_headers = record { last_header = none; header_count = 0; pos = 0 }

abbrev pub or_start : Option ℕ → ℕ
or_start none = 0
or_start (some pos) = pos

-- One cycle as seen from outside: the bytes that were written before it, whether the file can be
-- read, whether SPI returns a soft error, for the offset or for the rows, and whether the
-- transaction commits. After a soft error the transaction is taken to be rolled back, as the
-- worker's comment has it; what pgrx does then is not part of the repository.
pub record Cycle : Type 0 where
  pub appended : List ℕ
  pub readable : Bool
  pub soft_error : Bool
  pub commits : Bool

module _ (s : Simd) (from_utf8_lossy : List ℕ → List ℕ) where
  unfoldable pub is_entry_header : List ℕ → Bool
  is_entry_header line =
      is_log_line_start s line
      && (contains line (codes "duration:") && contains line (codes "plan:"))

  unfoldable pub see_line : Headers → List ℕ → Headers
  see_line h line =
      let pos = h.pos + length line in
      if is_entry_header line
      then record { last_header = some h.pos; header_count = h.header_count + 1; pos = pos }
      else record h { pos = pos }

  unfoldable pub see_lines : Headers → List (List ℕ) → Headers
  see_lines h [] = h
  see_lines h (line ∷ lines) = see_lines (see_line h line) lines

  unfoldable pub last_complete_boundary : List ℕ → ℕ
  last_complete_boundary bytes =
      let h = see_lines no_headers (split_inclusive bytes) in
      if ltb h.header_count 2 then 0 else or_start h.last_header

  -- A file that is shorter than the offset has been rotated.
  unfoldable pub read_new_complete : List ℕ → ℕ → List ℕ × ℕ
  read_new_complete file offset =
      let size = length file in
      let start = if ltb size offset then 0 else offset in
      let buf = take (min (size - start) max_read_bytes) (drop start file) in
      let boundary = last_complete_boundary buf in
      if leb size start
      then ([], start)
      else (from_utf8_lossy (take boundary buf), start + boundary)

  -- The text that a cycle ingests, if it is not empty, and the offset that is stored after it.
  unfoldable pub flush_cycle : List ℕ → Cycle → ℕ → List ℕ × ℕ
  flush_cycle file c offset =
      if c.readable && (not c.soft_error && c.commits)
      then read_new_complete file offset
      else ([], offset)

  -- The worker on a file that grows: the texts, the offset at last, and the file at last.
  unfoldable pub flush_cycles : List ℕ → ℕ → List Cycle → List (List ℕ) × ℕ × List ℕ
  flush_cycles file offset [] = ([], offset, file)
  flush_cycles file offset (c ∷ cs) =
      let (text, new_offset) = flush_cycle (file ++ c.appended) c offset in
      let (texts, last, grown) = flush_cycles (file ++ c.appended) new_offset cs in
      (text ∷ texts, last, grown)
