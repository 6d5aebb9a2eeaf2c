-- ===== src/Collector/Remaining.antt =====
-- The final flush of a file: `process_remaining_content` of crates/exporter/src/collector.rs.
use pg_plansight.Prelude.{
  ℕ, ◌≤◌, ◌≡◌, ◌⊎◌, Bool, true, false, ◌&&◌, ◌||◌, not, Option, none, some, List, [], ◌∷◌, leb,
  if◌then◌else◌,
}
use pg_plansight.Scan.Verdict.{Simd}
use pg_plansight.Collector.{
  FileState, FileRuntime, LogParsing, Result, ok, err, Metadata, FileView, Intake, ParsedRange,
}
use pg_plansight.Collector.Range.{is_compressed_file, Ranged, parse_range_blocking}
use pg_plansight.Collector.Reads.{Empties, ReadFrom, Reads}
use pg_plansight.Collector.File.{ingested, Visit, unmoved, checkpoint}
use pg_plansight.Collector.Moves.{position, Follows, Shows}

-- The start of what remains, none when there is nothing.
unfoldable pub start_position : Option FileState → ℕ → Option ℕ
start_position none current_size = some 0
start_position (some st) current_size =
    if leb current_size st.last_position then none else some st.last_position

module _ (s : Simd) (intake : Intake) (config : LogParsing) (view : FileView) where
  open intake use {Grouper, Queries, is_empty}

  unfoldable pub commit_remaining :
      Option FileState
      → Metadata
      → ℕ
      → FileRuntime
      → Grouper
      → ParsedRange Queries
      → Visit Grouper Queries
  commit_remaining stored m start r g range =
      let event = ingested start range.end_offset range.processed_queries in
      if not (is_empty range.processed_queries) && not view.hashes_recorded
      then unmoved s intake config view stored r g err
      else if not view.modified_read || not view.state_written
      then record (unmoved s intake config view stored r g err) { events = event ∷ [] }
      else record {
        stored =
            some (record (checkpoint m view.now range.end_offset) { file_size = range.end_offset });
        runtime = r;
        grouper = g;
        result = ok range.plan_count;
        events = event ∷ [];
      }

  -- An error of the parser is logged, and the visit reports no plans.
  unfoldable pub settle_remaining :
      Option FileState → Metadata → ℕ → FileRuntime → Ranged s intake → Visit Grouper Queries
  settle_remaining stored m start r (err, g) = unmoved s intake config view stored r g (ok 0)
  settle_remaining stored m start r (ok none, g) = unmoved s intake config view stored r g (ok 0)
  settle_remaining stored m start r (ok (some range), g) = commit_remaining stored m start r g range

  unfoldable pub flush_from :
      Option ℕ → Metadata → Option FileState → FileRuntime → Grouper → Visit Grouper Queries
  flush_from none m stored r g = unmoved s intake config view stored r g (ok 0)
  flush_from (some start) m stored r g =
      settle_remaining stored m start r
        (parse_range_blocking s intake g view.content start m.len false)

  unfoldable pub remaining_stated :
      Option Metadata → Option FileState → FileRuntime → Grouper → Visit Grouper Queries
  remaining_stated none stored r g = unmoved s intake config view stored r g err
  remaining_stated (some m) stored r g =
      if not view.state_read
      then unmoved s intake config view stored r g err
      else flush_from (start_position stored m.len) m stored r g

  -- The runtime state is not used.
  unfoldable pub process_remaining_content :
      Option FileState → FileRuntime → Grouper → Visit Grouper Queries
  process_remaining_content stored r g = remaining_stated view.metadata stored r g

  abbrev pub is_found : Result (Option (ParsedRange Queries)) → Bool
  is_found err = false
  is_found (ok none) = false
  is_found (ok (some range)) = true

  module _ (IsEmptied : Grouper → Type 0) (empties : Empties intake IsEmptied) (whole : List ℕ)
      (plain : is_compressed_file (some whole) ≡ false) (shows : Shows whole view.content)
      (modified : view.modified_read ≡ true) (written : view.state_written ≡ true) (g : Grouper)
      (empty : IsEmptied g) where
    -- Why the final flush may do nothing: the file holds nothing new, the state cannot be read, the
    -- rest of the file could not be parsed, or the hashes of its queries could not be recorded.
    pub data Excuse (m : Metadata) (stored : Option FileState) : Type 0 where
      nothing_new : m.len ≤ position stored → Excuse m stored
      unread_state : view.state_read ≡ false → Excuse m stored
      unparsed :
          is_found (parse_range_blocking s intake g view.content (position stored) m.len false).0
            ≡ false
          → Excuse m stored
      unrecorded : view.hashes_recorded ≡ false → Excuse m stored

    abbrev pub IsKept : Metadata → Option FileState → Visit Grouper Queries → Type 0
    IsKept m stored v = (v.stored ≡ stored) × (v.events ≡ []) × Excuse m stored

    abbrev pub IsIngested : Metadata → Option FileState → Visit Grouper Queries → Type 0
    IsIngested m stored v =
        (q : Queries) × (v.events ≡ ingested (position stored) m.len q ∷ [])
        × ReadFrom s intake IsEmptied whole (position stored) m.len q
        × (position v.stored ≡ m.len)

    -- The checkpoint stays, with no event and for a reason, or all the rest of the file is ingested.
    pub record Flushed (m : Metadata) (stored : Option FileState) (v : Visit Grouper Queries)
        : Type 0 where
      pub outcome : IsKept m stored v ⊎ IsIngested m stored v
      pub next : Follows m.dev m.ino m.len v.stored
      pub emptied : IsEmptied v.grouper
