-- ===== src/Collector/Moves.antt =====
-- What one visit of an append-only file does to its checkpoint (crates/exporter/src/collector.rs).
use pg_plansight.Prelude.{
  ℕ, ◌≤◌, ◌<◌, ◌≡◌, refl, sym, subst, inl, inr, Bool, true, false, ◌&&◌, ◌||◌, not, Option, none,
  some, List, [], ◌∷◌, ◌++◌, arith, ltb, leb, ◌==◌, le→ltb, leb→lt, Bool-cases, take, length-take,
}
use pg_plansight.Scan.Verdict.{Simd}
use pg_plansight.Collector.{
  FileState, FileRuntime, max_parse_failures, LogParsing, Result, ok, err, Metadata, FileView,
  Intake, ParsedRange, parsed,
}
use pg_plansight.Collector.Range.{is_compressed_file, parse_range_blocking}
use pg_plansight.Collector.Reach.{Reaches, parse_range_blocking-Reaches}
use pg_plansight.Collector.Reads.{
  read_file_range-take, is_compressed_file-take, Empties, ReadFrom, Reads,
  parse_range_blocking-Reads, parse_range_blocking-Emptied,
}
use pg_plansight.Collector.File.{
  or_new, observe, is_quiescent, identity_changed, rotate, effective_read_budget, window_end, Event,
  ingested, skipped, exceeds_limit, Visit, note_failed, give_up, commit, settle, read_window,
  read_new, process_present,
}

-- Where the next range of the file starts.
abbrev pub position : Option FileState → ℕ
position none = 0
position (some st) = st.last_position

-- What is stored of a file of this identity that has not shrunk below this size.
abbrev pub Follows : Option ℕ → Option ℕ → ℕ → Option FileState → Type 0
Follows dev ino size none = Unit
Follows dev ino size (some st) =
    (identity_changed st.dev st.ino dev ino ≡ false)
    × (st.file_size ≤ size)
    × (st.last_position ≤ size)

pub position-le :
    (m : Metadata) (o : Option FileState) → Follows m.dev m.ino m.len o → position o ≤ m.len
position-le m none h = omega arith
position-le m (some st) h = h.2

pub identity_kept : (dev ino : Option ℕ) → identity_changed dev ino dev ino ≡ false
unfolding identity_changed
identity_kept none none = refl
identity_kept none (some i) = refl
identity_kept (some d) none = refl
identity_kept (some d) (some i) = ground arith

pub rotate_kept :
    (stored : Option FileState) (m : Metadata) (now : ℕ)
    → Follows m.dev m.ino m.len stored
    → rotate (or_new stored now) m ≡ or_new stored now
unfolding rotate
rotate_kept none m now h = unfold identity_changed in ground arith
rotate_kept (some st) m now (same, size, at) = rw (same, le→ltb m.len st.file_size size) refl

pub window_end-le : (c : Bool) (budget p size : ℕ) → window_end c budget p size ≤ size
unfolding window_end
window_end-le c budget p size = elim (Bool-cases (c || budget == 0)) [
  | inl e ↦ rw e (omega arith)
  | inr e ↦ rw e (omega arith)
]

pub new_position : (o : Option FileState) (now : ℕ) → position o ≡ (or_new o now).last_position
new_position none now = refl
new_position (some st) now = refl

-- A read of the file finds a prefix of what it will hold.
abbrev pub Shows : List ℕ → Option (List ℕ) → Type 0
Shows whole none = Unit
Shows whole (some content) = (n : ℕ) × (content ≡ take n whole)

pub plain_view :
    (whole : List ℕ) (content : Option (List ℕ))
    → is_compressed_file (some whole) ≡ false
    → Shows whole content
    → is_compressed_file content ≡ false
unfolding is_compressed_file
plain_view whole none plain shows = refl
plain_view whole (some content) plain (n, e) =
    rw e (unfold is_compressed_file in is_compressed_file-take n whole plain)

module _ (s : Simd) (intake : Intake) (IsEmptied : intake.Grouper → Type 0) (whole : List ℕ) where
  open intake use {Grouper, Queries}

  -- The events cover the file from p to q, each range where the last one ended, and what was
  -- ingested of a range are the queries that the parser finds in its bytes.
  abbrev pub Chain : ℕ → List (Event Queries) → ℕ → Type 0
  Chain p [] q = p ≡ q
  Chain p (ingested a b queries ∷ events) q =
      (a ≡ p) × (a < b) × ReadFrom s intake IsEmptied whole a b queries × Chain b events q
  Chain p (skipped a b ∷ events) q = (a ≡ p) × (a < b) × Chain b events q

  pub Chain-append :
      (p q r : ℕ) (xs ys : List (Event Queries))
      → Chain p xs q
      → Chain q ys r
      → Chain p (xs ++ ys) r
  Chain-append p q r [] ys c d = subst (λ k. Chain k ys r) (sym c) d
  Chain-append p q r (ingested a b queries ∷ xs) ys (at, lt, read, c) d =
      (at, lt, read, Chain-append b q r xs ys c d)
  Chain-append p q r (skipped a b ∷ xs) ys (at, lt, c) d = (at, lt, Chain-append b q r xs ys c d)

  Reads-take :
      (n start : ℕ) (r : Result (Option (ParsedRange Queries))) (hold_back : Bool) (end : ℕ)
      → Reaches hold_back start end r
      → Reads s intake IsEmptied (take n whole) start r
      → Reads s intake IsEmptied whole start r
  Reads-take n start err hold_back end reach reads = tt
  Reads-take n start (ok none) hold_back end reach reads = tt
  Reads-take n start (ok (some range)) hold_back end (lt, le, to) reads =
      let short = length-take n whole in
      record {
        before = reads.before;
        after = reads.after;
        emptied = reads.emptied;
        parses =
            subst (λ bs. intake.parse_into_grouper bs reads.before ≡ parsed reads.after)
              (read_file_range-take whole n start range.end_offset (omega arith)
                (omega (arith, reads.inside, short)))
              reads.parses;
        taken = reads.taken;
        inside = omega (arith, reads.inside, short);
      }

  pub Shows-Reads :
      (g : Grouper) (content : Option (List ℕ)) (start end : ℕ) (hold_back : Bool)
      → is_compressed_file (some whole) ≡ false
      → Shows whole content
      → IsEmptied g
      → Reads s intake IsEmptied whole start
          (parse_range_blocking s intake g content start end hold_back).0
  Shows-Reads g none start end hold_back plain shows empty = unfold parse_range_blocking in tt
  Shows-Reads g (some content) start end hold_back plain (n, e) empty =
      Reads-take n start _ hold_back end
        (parse_range_blocking-Reaches s intake g (some content) start end hold_back)
        (subst
          (λ c.
            Reads s intake IsEmptied c start
              (parse_range_blocking s intake g (some content) start end hold_back).0)
          e
          (parse_range_blocking-Reads s intake IsEmptied g content start end hold_back
            (rw e (is_compressed_file-take n whole plain)) empty))

  -- A visit hands on what lies between the checkpoint before it and the one after it, and leaves
  -- nothing in the grouper.
  pub record Moved (m : Metadata) (stored : Option FileState) (v : Visit Grouper Queries)
      : Type 0 where
    pub chain : Chain (position stored) v.events (position v.stored)
    pub next : Follows m.dev m.ino m.len v.stored
    pub emptied : IsEmptied v.grouper

  -- The rest of a visit of a file whose checkpoint is `stored`, or `st` for a new one.
  module _ (config : LogParsing) (view : FileView) (m : Metadata) (stored : Option FileState)
      (st : FileState) (follows : Follows m.dev m.ino m.len stored)
      (at : position stored ≡ st.last_position)
      (same : identity_changed st.dev st.ino m.dev m.ino ≡ false)
      (written : view.state_written ≡ true) where
    give_up-Moved :
        (r : FileRuntime) (g : Grouper)
        → IsEmptied g
        → st.last_position < m.len
        → Moved m stored (give_up s intake config view stored st m r g)
    unfolding give_up
    give_up-Moved r g empty lt = elim (Bool-cases (ltb r.parse_failures max_parse_failures)) [
      | inl e ↦ rw e record { chain = refl; next = follows; emptied = empty }
      | inr e ↦
          rw (e, written)
            record {
              chain = (sym at, lt, refl);
              next = (same, omega arith, omega arith);
              emptied = empty;
            }
    ]

    commit-Moved :
        (r : FileRuntime) (g : Grouper) (range : ParsedRange Queries)
        → IsEmptied g
        → st.last_position < range.end_offset
        → range.end_offset ≤ m.len
        → ReadFrom s intake IsEmptied whole st.last_position range.end_offset
            range.processed_queries
        → Moved m stored (commit s intake config view stored st m false r g range)
    unfolding commit
    commit-Moved r g range empty lt le read =
        elim (Bool-cases
          (not (intake.is_empty range.processed_queries) && not view.hashes_recorded)) [
            | inl e ↦ rw e record { chain = refl; next = follows; emptied = empty }
            | inr e ↦
                rw (e, written)
                  record {
                    chain = (sym at, lt, read, refl);
                    next = (identity_kept m.dev m.ino, omega arith, le);
                    emptied = empty;
                  }
          ]

    settle-Moved :
        (clamped hold_back : Bool) (end : ℕ) (r : FileRuntime)
        (res : Result (Option (ParsedRange Queries))) (g : Grouper)
        → IsEmptied g
        → st.last_position < m.len
        → end ≤ m.len
        → Reaches hold_back st.last_position end res
        → Reads s intake IsEmptied whole st.last_position res
        → Moved m stored (settle s intake config view stored st m false clamped r (res, g))
    unfolding settle
    settle-Moved clamped hold_back end r err g empty new le reach reads =
        give_up-Moved (note_failed r) g empty new
    settle-Moved clamped hold_back end r (ok none) g empty new le reach reads = record {
      chain = refl;
      next = follows;
      emptied = empty;
    }
    settle-Moved clamped hold_back end r (ok (some range)) g empty new le (lt, within, to) reads =
        commit-Moved _ g range empty lt (omega arith) reads

    module _ (empties : Empties intake IsEmptied) (plain : is_compressed_file (some whole) ≡ false)
        (shows : Shows whole view.content) where
      read_window-Moved :
          (r : FileRuntime) (g : Grouper)
          → IsEmptied g
          → st.last_position < m.len
          → Moved m stored (read_window s intake config view stored st m false r g)
      unfolding read_window
      read_window-Moved r g empty new =
          let budget = effective_read_budget config r in
          let end = window_end false budget st.last_position m.len in
          let clamped = ltb end m.len in
          let hold_back = (not (is_quiescent r) || clamped) && true in
          settle-Moved clamped hold_back end r _ _
            (parse_range_blocking-Emptied s intake IsEmptied empties g view.content st.last_position
              end hold_back empty)
            new (window_end-le false budget st.last_position m.len)
            (parse_range_blocking-Reaches s intake g view.content st.last_position end hold_back)
            (Shows-Reads g view.content st.last_position end hold_back plain shows empty)

      pub read_new-Moved :
          (r : FileRuntime) (g : Grouper)
          → IsEmptied g
          → Moved m stored (read_new s intake config view stored st m r g)
      unfolding read_new
      read_new-Moved r g empty =
          rw (plain_view whole view.content plain shows)
            (elim (Bool-cases (leb m.len st.last_position)) [
              | inl e ↦ rw e record { chain = refl; next = follows; emptied = empty }
              | inr e ↦ rw e (read_window-Moved r g empty (leb→lt m.len st.last_position e))
            ])

  new_identity :
      (m : Metadata) (o : Option FileState) (now : ℕ)
      → Follows m.dev m.ino m.len o
      → identity_changed (or_new o now).dev (or_new o now).ino m.dev m.ino ≡ false
  unfolding identity_changed
  new_identity m none now h = refl
  new_identity m (some st) now h = h.0

  pub process_present-Moved :
      (config : LogParsing) (view : FileView) (m : Metadata) (stored : Option FileState)
      (r : FileRuntime) (g : Grouper)
      → Empties intake IsEmptied
      → IsEmptied g
      → is_compressed_file (some whole) ≡ false
      → Shows whole view.content
      → view.state_written ≡ true
      → Follows m.dev m.ino m.len stored
      → Moved m stored (process_present s intake config view m stored r g)
  unfolding process_present
  process_present-Moved config view m stored r g empties empty plain shows written follows =
      let now = view.now in
      elim (Bool-cases (exceeds_limit config m)) [
        | inl e ↦ rw e record { chain = refl; next = follows; emptied = empty }
        | inr e ↦ elim (Bool-cases (not view.state_read)) [
          | inl f ↦ rw (e, f) record { chain = refl; next = follows; emptied = empty }
          | inr f ↦
              rw (e, f, rotate_kept stored m now follows)
                (read_new-Moved config view m stored (or_new stored now) follows
                  (new_position stored now) (new_identity m stored now follows) written empties
                  plain shows (observe r m) g empty)
        ]
      ]
