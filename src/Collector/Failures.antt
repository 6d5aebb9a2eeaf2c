-- ===== src/Collector/Failures.antt =====
-- A file of which a range cannot be read or parsed (crates/exporter/src/collector.rs): retries,
-- then giving up.
use pg_plansight.Prelude.{
  ℕ, ◌+◌, ◌<◌, ◌≡◌, refl, sym, ap, subst, ◌∙◌, true, false, ◌&&◌, ◌||◌, not, Option, some, List, [],
  ◌∷◌, arith, ltb, leb, lt→ltb, le→ltb,
}
use pg_plansight.Scan.Verdict.{Simd}
use pg_plansight.Collector.{
  FileState, FileRuntime, max_parse_failures, count_up, LogParsing, err, Metadata, FileView, Intake,
}
use pg_plansight.Collector.Range.{Ranged, parse_range_blocking}
use pg_plansight.Collector.File.{
  or_new, observe, is_quiescent, effective_read_budget, window_end, exceeds_limit, skipped,
  note_failed, give_up, settle, read_window, read_new, process_present, process_log_file,
}
use pg_plansight.Collector.Moves.{position, new_position, rotate_kept, Follows}
use pg_plansight.Collector.History.{visit_all}
use pg_plansight.Collector.Progress.{observe-fields}
use pg_plansight.Collector.Liveness.{Steady, present}

module _ (s : Simd) (intake : Intake) (config : LogParsing) (m : Metadata) where
  open intake use {Grouper}

  -- What a visit of a file that is not compressed makes of the range that it reads.
  abbrev pub reading : FileView → Option FileState → FileRuntime → Grouper → Ranged s intake
  reading view stored r g =
      let budget = effective_read_budget config (observe r m) in
      let start = (or_new stored view.now).last_position in
      let end = window_end false budget start m.len in
      let hold_back = (not (is_quiescent (observe r m)) || ltb end m.len) && true in
      parse_range_blocking s intake g view.content start end hold_back

  -- Visits that find the file, and none of which can read and parse its range, for any reason.
  abbrev pub AllFail : List FileView → Option FileState → FileRuntime → Grouper → Type 0
  AllFail [] stored r g = Unit
  AllFail (view ∷ views) stored r g =
      let v = process_log_file s intake config view stored r g in
      (Steady m view × ((reading view stored r g).0 ≡ err))
      × AllFail views v.stored v.runtime v.grouper

module _ (s : Simd) (intake : Intake) (config : LogParsing) (m : Metadata)
    (small : exceeds_limit config m ≡ false) where
  open intake use {Grouper}

  -- A visit whose range fails comes to the `Err` branch.
  visit-give_up :
      (view : FileView) (stored : Option FileState) (r : FileRuntime) (g : Grouper)
      → Steady m view
      → (reading s intake config m view stored r g).0 ≡ err
      → Follows m.dev m.ino m.len stored
      → position stored < m.len
      → process_log_file s intake config view stored r g
        ≡ give_up s intake config view stored
            (or_new stored view.now)
            m
            (note_failed (observe r m))
            (reading s intake config m view stored r g).1
  unfolding process_present read_new read_window settle
  visit-give_up view stored r g steady fails follows new =
      let guard : not view.state_read ≡ false = ap not steady.state_read in
      let at = new_position stored view.now in
      let new_bytes : leb m.len (or_new stored view.now).last_position ≡ false = ground arith in
      let end =
        window_end false (effective_read_budget config (observe r m))
          (or_new stored view.now).last_position m.len in
      let failed : reading s intake config m view stored r g
          ≡ (err, (reading s intake config m view stored r g).1) =
        λ i. (fails i, (reading s intake config m view stored r g).1) in
      present s intake config m view stored r g steady
      ∙ rw (small, guard, rotate_kept stored m view.now follows, new_bytes, steady.plain)
          (ap
            (settle s intake config view stored (or_new stored view.now) m false (ltb end m.len)
              (observe r m))
            failed)

  -- One of the first two failures in a row.
  retried :
      (view : FileView) (stored : Option FileState) (r : FileRuntime) (g : Grouper)
      → Steady m view
      → (reading s intake config m view stored r g).0 ≡ err
      → Follows m.dev m.ino m.len stored
      → position stored < m.len
      → r.parse_failures < 2
      → let v = process_log_file s intake config view stored r g in
        (v.stored ≡ stored) × (v.events ≡ []) × (v.runtime.parse_failures ≡ r.parse_failures + 1)
  unfolding give_up note_failed
  retried view stored r g steady fails follows new few =
      let same = (observe-fields r m).1 in
      let again : ltb (count_up (observe r m).parse_failures) max_parse_failures ≡ true =
        lt→ltb _ _ (omega (arith, same)) in
      rw (visit-give_up view stored r g steady fails follows new, again)
        (refl, refl, omega (arith, same))

  -- What is stored of a file whose rest was skipped.
  abbrev abandoned_at : Option FileState → ℕ → FileState
  abandoned_at stored now = record (or_new stored now) {
    last_position = m.len;
    file_size = m.len;
    last_modified_time = m.modified;
    last_processed_at = now;
  }

  -- The third.
  abandoned :
      (view : FileView) (stored : Option FileState) (r : FileRuntime) (g : Grouper)
      → Steady m view
      → (reading s intake config m view stored r g).0 ≡ err
      → Follows m.dev m.ino m.len stored
      → position stored < m.len
      → r.parse_failures ≡ 2
      → let v = process_log_file s intake config view stored r g in
        (v.stored ≡ some (abandoned_at stored view.now))
        × (v.events ≡ skipped (position stored) m.len ∷ [])
        × (v.runtime.parse_failures ≡ 0)
  unfolding give_up note_failed
  abandoned view stored r g steady fails follows new two =
      let same = (observe-fields r m).1 in
      let last : ltb (count_up (observe r m).parse_failures) max_parse_failures ≡ false =
        le→ltb _ _ (omega (arith, same, two)) in
      let guard : not view.state_written ≡ false = ap not steady.state_written in
      rw (visit-give_up view stored r g steady fails follows new, last, guard)
        (refl, ap (λ p. skipped p m.len ∷ []) (sym (new_position stored view.now)), refl)

  kept :
      {o n : Option FileState} → Follows m.dev m.ino m.len o → o ≡ n → Follows m.dev m.ino m.len n
  kept follows e = subst (Follows m.dev m.ino m.len) e follows

  newer : {o n : Option FileState} → position o < m.len → o ≡ n → position n < m.len
  newer new e = subst (λ o. position o < m.len) e new

  -- Three visits in a row that cannot read or parse their range, whatever the reason: the first two
  -- leave the checkpoint where it is and emit nothing; the third reports everything from there to the
  -- end of the file as skipped, stores the end of the file as the checkpoint, with its size and time
  -- and the identity stored before, and starts counting anew. The state database can be used, the
  -- file is within the size limit, is not compressed, has new content and was not rotated, and no
  -- failure was counted before the first visit.
  pub visit_all_gives_up :
      (a b c : FileView) (stored : Option FileState) (r : FileRuntime) (g : Grouper)
      → AllFail s intake config m (a ∷ b ∷ c ∷ []) stored r g
      → Follows m.dev m.ino m.len stored
      → position stored < m.len
      → r.parse_failures ≡ 0
      → let second = visit_all s intake config (a ∷ b ∷ []) stored r g in
        let third = visit_all s intake config (a ∷ b ∷ c ∷ []) stored r g in
        (second.stored ≡ stored)
        × (second.events ≡ [])
        × (third.stored
            ≡ some (record (or_new stored c.now) {
              last_position = m.len;
              file_size = m.len;
              last_modified_time = m.modified;
              last_processed_at = c.now;
            }))
        × (third.events ≡ skipped (position stored) m.len ∷ [])
        × (third.runtime.parse_failures ≡ 0)
  unfolding visit_all
  visit_all_gives_up a b c stored r g ((sa, ua), ((sb, ub), ((sc, uc), end))) follows new start =
      let va = process_log_file s intake config a stored r g in
      let (ka, ea, fa) = retried a stored r g sa ua follows new (omega (arith, start)) in
      let vb = process_log_file s intake config b va.stored va.runtime va.grouper in
      let (kb, eb, fb) =
        retried b va.stored va.runtime va.grouper sb ub (kept follows (sym ka)) (newer new (sym ka))
          (omega (arith, start, fa)) in
      let back = kb ∙ ka in
      let vc = process_log_file s intake config c vb.stored vb.runtime vb.grouper in
      let (kc, ec, fc) =
        abandoned c vb.stored vb.runtime vb.grouper sc uc (kept follows (sym back))
          (newer new (sym back)) (omega (arith, start, fa, fb)) in
      (
        back,
        rw (ea, eb) refl,
        kc ∙ ap (λ o. some (abandoned_at o c.now)) back,
        rw (ea, eb, ec) (ap (λ o. skipped (position o) m.len ∷ []) back),
        fc,
      )
