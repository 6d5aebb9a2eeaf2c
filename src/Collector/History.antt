-- ===== src/Collector/History.antt =====
-- Successive visits of one file by `process_log_file` of crates/exporter/src/collector.rs.
use pg_plansight.Prelude.{
  ℕ, ◌≤◌, ◌≡◌, refl, sym, subst, true, false, Option, none, some, List, [], ◌∷◌, ◌++◌, arith,
}
use pg_plansight.Scan.Verdict.{Simd}
use pg_plansight.Collector.{FileState, FileRuntime, LogParsing, ok, Metadata, FileView, Intake}
use pg_plansight.Collector.Range.{is_compressed_file}
use pg_plansight.Collector.Reads.{Empties}
use pg_plansight.Collector.File.{Visit, process_stated, process_log_file}
use pg_plansight.Collector.Moves.{
  position, Follows, Shows, Chain, Chain-append, process_present-Moved,
}

-- The file is there, is the same file and has not shrunk.
abbrev pub Stat : Option ℕ → Option ℕ → ℕ → Option Metadata → Type 0
Stat dev ino size none = Unit
Stat dev ino size (some m) = (m.dev ≡ dev) × (m.ino ≡ ino) × (size ≤ m.len)

abbrev pub size_seen : ℕ → Option Metadata → ℕ
size_seen size none = size
size_seen size (some m) = m.len

-- The visits of a file of one identity that is only appended to, up to what it holds in the end;
-- a visit may fail to read the metadata or the content, or to record the query hashes, but the
-- state database can be written.
abbrev pub Grows : Option ℕ → Option ℕ → List ℕ → ℕ → List FileView → Type 0
Grows dev ino whole size [] = Unit
Grows dev ino whole size (view ∷ views) =
    (view.state_written ≡ true)
    × Shows whole view.content
    × Stat dev ino size view.metadata
    × Grows dev ino whole (size_seen size view.metadata) views

abbrev pub last_size : ℕ → List FileView → ℕ
last_size size [] = size
last_size size (view ∷ views) = last_size (size_seen size view.metadata) views

widen :
    (dev ino : Option ℕ) (size more : ℕ) (o : Option FileState)
    → size ≤ more
    → Follows dev ino size o
    → Follows dev ino more o
widen dev ino size more none le h = tt
widen dev ino size more (some st) le (same, a, b) = (same, omega arith, omega arith)

of_identity :
    {dev ino new_dev new_ino : Option ℕ} (size : ℕ) (o : Option FileState)
    → dev ≡ new_dev
    → ino ≡ new_ino
    → Follows dev ino size o
    → Follows new_dev new_ino size o
of_identity {ino = ino} {new_dev = new_dev} size o d i h =
    subst (λ x. Follows new_dev x size o) i (subst (λ x. Follows x ino size o) d h)

module _ (s : Simd) (intake : Intake) (config : LogParsing) where
  open intake use {Grouper, Queries}

  -- One visit after the other, and all their events.
  unfoldable pub visit_all :
      List FileView → Option FileState → FileRuntime → Grouper → Visit Grouper Queries
  visit_all [] stored r g = record {
    stored = stored;
    runtime = r;
    grouper = g;
    result = ok 0;
    events = [];
  }
  visit_all (view ∷ views) stored r g =
      let v = process_log_file s intake config view stored r g in
      let rest = visit_all views v.stored v.runtime v.grouper in
      record rest { events = v.events ++ rest.events }

  module _ (IsEmptied : Grouper → Type 0) (empties : Empties intake IsEmptied) (whole : List ℕ)
      (plain : is_compressed_file (some whole) ≡ false) where
    pub record Step (dev ino : Option ℕ) (size : ℕ) (stored : Option FileState)
        (v : Visit Grouper Queries) : Type 0 where
      pub chain : Chain s intake IsEmptied whole (position stored) v.events (position v.stored)
      pub next : Follows dev ino size v.stored
      pub emptied : IsEmptied v.grouper

    process_stated-Step :
        (dev ino : Option ℕ) (size : ℕ) (view : FileView) (stored : Option FileState)
        (r : FileRuntime) (g : Grouper) (o : Option Metadata)
        → Shows whole view.content
        → view.state_written ≡ true
        → Stat dev ino size o
        → Follows dev ino size stored
        → IsEmptied g
        → Step dev ino (size_seen size o) stored (process_stated s intake config view o stored r g)
    process_stated-Step dev ino size view stored r g none shows written stat follows empty =
        record { chain = refl; next = follows; emptied = empty }
    process_stated-Step dev ino size view stored r g (some m) shows written (d, i, le) follows
          empty =
        let wide =
          of_identity m.len stored (sym d) (sym i) (widen dev ino size m.len stored le follows) in
        let moved =
          process_present-Moved s intake IsEmptied whole config view m stored r g empties empty
            plain shows written wide in
        record {
          chain = moved.chain;
          next = of_identity m.len _ d i moved.next;
          emptied = moved.emptied;
        }

    -- Over any visits of a file that is only appended to, parse failures and abandoned ranges
    -- included, the events cover the file from the first checkpoint to the last: each range starts
    -- where the one before ended, so that nothing is passed over in silence and nothing is ingested
    -- twice, and what was ingested of a range are the queries that the parser adds from exactly its
    -- bytes to a grouper that holds nothing: no plan of a failed parse is left for a later range. The
    -- grouper holds nothing in the end, the last checkpoint is within the size last seen, and the
    -- file does not look rotated. Holding nothing is any property of groupers that a fresh grouper
    -- and one whose groups were taken have, and the first grouper has it. The file is not
    -- compressed; the metadata, the content, the stored state and the query hashes may fail to be
    -- read or recorded at any visit, but a checkpoint can always be written.
    pub visit_all-Chain :
        (dev ino : Option ℕ) (size : ℕ) (views : List FileView) (stored : Option FileState)
        (r : FileRuntime) (g : Grouper)
        → Grows dev ino whole size views
        → Follows dev ino size stored
        → IsEmptied g
        → Chain s intake IsEmptied whole
            (position stored)
            (visit_all views stored r g).events
            (position (visit_all views stored r g).stored)
          × Follows dev ino (last_size size views) (visit_all views stored r g).stored
          × IsEmptied (visit_all views stored r g).grouper
    unfolding visit_all process_log_file
    visit_all-Chain dev ino size [] stored r g grows follows empty = (refl, follows, empty)
    visit_all-Chain dev ino size (view ∷ views) stored r g (written, shows, stat, grows) follows
          empty =
        let v = process_log_file s intake config view stored r g in
        let step =
          process_stated-Step dev ino size view stored r g view.metadata shows written stat follows
            empty in
        let (chain, last, still) =
          visit_all-Chain dev ino (size_seen size view.metadata) views v.stored v.runtime v.grouper
            grows step.next step.emptied in
        (
          Chain-append s intake IsEmptied whole (position stored) (position v.stored) _ v.events _
              step.chain chain,
          last,
          still,
        )
