-- ===== src/Collector/Settles.antt =====
-- That a file which no longer changes is read to its end (crates/exporter/src/collector.rs).
use pg_plansight.Prelude.{
  ℕ, ◌*◌, ◌^◌, ◌≤◌, ◌<◌, ◌≡◌, refl, ap, ◌∙◌, ◌⊎◌, inl, inr, Bool, true, false, ◌&&◌, ◌||◌, not,
  Option, none, some, arith, ltb, leb, ltb→lt, leb→le, le→leb, Bool-cases,
}
use pg_plansight.Scan.Verdict.{Simd}
use pg_plansight.Collector.{
  FileState, FileRuntime, max_parse_failures, count_up, u64_max, LogParsing, Result, ok, err,
  Metadata, FileView, Intake, ParsedRange,
}
use pg_plansight.Collector.Range.{is_compressed_file}
use pg_plansight.Collector.Reach.{Reaches, parse_range_blocking-Reaches}
use pg_plansight.Collector.File.{
  or_new, observe, is_quiescent, effective_read_budget, window_end, exceeds_limit, Visit,
  note_parsed, note_failed, give_up, commit, settle, read_window, read_new, process_present,
}
use pg_plansight.Collector.Moves.{
  position, position-le, Follows, rotate_kept, window_end-le, new_position,
}
use pg_plansight.Collector.Progress.{
  age, age-le, left, Observed, observe-Observed, window_end-clamped,
}

age-note_parsed :
    (r : FileRuntime) (m : Metadata) (stalled : Bool) → age (note_parsed r stalled) m ≡ age r m
unfolding age note_parsed
age-note_parsed r m stalled = refl

age-note_failed : (r : FileRuntime) (m : Metadata) → age (note_failed r) m ≡ age r m
unfolding age note_failed
age-note_failed r m = refl

module _ (s : Simd) (intake : Intake) (config : LogParsing) (view : FileView) (m : Metadata)
    (written : view.state_written ≡ true) (recorded : view.hashes_recorded ≡ true) where
  open intake use {Grouper, Queries}

  -- The visit reaches the end of the file, or leaves fewer visits to come.
  abbrev Gains : Option FileState → FileRuntime → Visit Grouper Queries → Type 0
  Gains stored r v = (position v.stored ≡ m.len) ⊎ (left m v.stored v.runtime < left m stored r)

  module _ (stored : Option FileState) (st : FileState) (at : position stored ≡ st.last_position)
      (r0 r : FileRuntime) (seen : Observed m r0 r) where
    give_up-Gains :
        (g : Grouper) → Gains stored r0 (give_up s intake config view stored st m (note_failed r) g)
    unfolding give_up note_failed
    give_up-Gains g = elim (Bool-cases (ltb (note_failed r).parse_failures max_parse_failures)) [
      | inl e ↦ rw e (
          inr (
            omega (
              arith,
              age-note_failed r m,
              seen.older,
              seen.stalls,
              seen.failures,
              ltb→lt (count_up r.parse_failures) max_parse_failures e,
            )))
      | inr e ↦ rw (e, written) (inl refl)
    ]

    commit-Gains :
        (stalled : Bool) (g : Grouper) (range : ParsedRange Queries)
        → st.last_position < range.end_offset
        → range.end_offset ≤ m.len
        → Gains stored r0
            (commit s intake config view stored st m false (note_parsed r stalled) g range)
    unfolding commit note_parsed
    commit-Gains stalled g range lt le =
        let failing = not (intake.is_empty range.processed_queries) && not view.hashes_recorded in
        let guard : failing ≡ false = ground arith in
        rw (guard, written) (inr (omega (arith, age-note_parsed r m stalled, seen.older, at)))

    settle-Gains :
        (clamped hold_back : Bool) (end : ℕ) (res : Result (Option (ParsedRange Queries)))
        (g : Grouper)
        → end ≤ m.len
        → (clamped ≡ true → r.budget_stalls < 20)
        → (hold_back ≡ true → clamped ≡ false → is_quiescent r ≡ false)
        → Reaches hold_back st.last_position end res
        → Gains stored r0 (settle s intake config view stored st m false clamped r (res, g))
    unfolding settle note_parsed
    settle-Gains clamped hold_back end err g le stalling waiting reach = give_up-Gains g
    settle-Gains true hold_back end (ok none) g le stalling waiting reach =
        let few = stalling refl in
        inr (omega (arith, age-note_parsed r m true, seen.older, seen.stalls, few))
    settle-Gains false hold_back end (ok none) g le stalling waiting reach =
        let aged = seen.younger (waiting reach refl) in
        inr (omega (arith, age-note_parsed r m false, aged, age-le r m))
    settle-Gains clamped hold_back end (ok (some range)) g le stalling waiting (lt, within, to) =
        commit-Gains _ g range lt (omega arith)

    read_window-Gains :
        (g : Grouper)
        → m.len ≤ u64_max
        → (config.max_read_bytes_per_cycle ≡ 0) ⊎ (m.len ≤ config.max_read_bytes_per_cycle * 2 ^ 20)
        → Gains stored r0 (read_window s intake config view stored st m false r g)
    unfolding read_window
    read_window-Gains g fits enough =
        let end = window_end false (effective_read_budget config r) st.last_position m.len in
        let clamped = ltb end m.len in
        let hold_back = (not (is_quiescent r) || clamped) && true in
        settle-Gains clamped hold_back end _ _
          (window_end-le false (effective_read_budget config r) st.last_position m.len)
          (λ e. window_end-clamped config r st.last_position m.len fits enough (ltb→lt end m.len e))
          (λ e f. ground arith)
          (parse_range_blocking-Reaches s intake g view.content st.last_position end hold_back)

  -- A file that is not read to its end is read further.
  new_content :
      (stored : Option FileState) (r : FileRuntime) (g : Grouper)
      → is_compressed_file view.content ≡ false
      → m.len ≤ u64_max
      → (config.max_read_bytes_per_cycle ≡ 0) ⊎ (m.len ≤ config.max_read_bytes_per_cycle * 2 ^ 20)
      → Follows m.dev m.ino m.len stored
      → (position stored ≡ m.len)
        ⊎ Gains stored r
            (read_new s intake config view stored (or_new stored view.now) m (observe r m) g)
  unfolding read_new
  new_content stored r g plain fits enough follows =
      let at = new_position stored view.now in
      elim (Bool-cases (leb m.len (or_new stored view.now).last_position)) [
        | inl e ↦ inl (
            omega (
              arith,
              at,
              position-le m stored follows,
              leb→le m.len (or_new stored view.now).last_position e,
            ))
        | inr e ↦
            rw (e, plain)
              (inr (
                read_window-Gains stored (or_new stored view.now) at r (observe r m)
                  (observe-Observed r m) g fits enough))
      ]

  pub at_end :
      (stored : Option FileState) (r : FileRuntime) (g : Grouper)
      → position stored ≡ m.len
      → (read_new s intake config view stored (or_new stored view.now) m r g).stored ≡ stored
  unfolding read_new
  at_end stored r g end =
      let at = new_position stored view.now in
      let le : m.len ≤ (or_new stored view.now).last_position = omega (arith, at, end) in
      rw (le→leb m.len (or_new stored view.now).last_position le) refl

  -- A visit of a file that is within the size limit.
  pub process_present-Gains :
      (stored : Option FileState) (r : FileRuntime) (g : Grouper)
      → view.state_read ≡ true
      → exceeds_limit config m ≡ false
      → is_compressed_file view.content ≡ false
      → m.len ≤ u64_max
      → (config.max_read_bytes_per_cycle ≡ 0) ⊎ (m.len ≤ config.max_read_bytes_per_cycle * 2 ^ 20)
      → Follows m.dev m.ino m.len stored
      → Gains stored r (process_present s intake config view m stored r g)
  unfolding process_present
  process_present-Gains stored r g readable small plain fits enough follows =
      let guard : not view.state_read ≡ false = ap not readable in
      rw (small, guard, rotate_kept stored m view.now follows)
        (elim (new_content stored r g plain fits enough follows) [
          | inl end ↦ inl (ap position (at_end stored (observe r m) g end) ∙ end)
          | inr gains ↦ gains
        ])
