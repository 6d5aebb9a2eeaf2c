-- ===== src/Collector/Reach.antt =====
-- How far `parse_range_blocking` of crates/exporter/src/collector.rs gets.
use pg_plansight.Prelude.{
  ℕ, zero, suc, ◌+◌, ◌-◌, ◌≤◌, ◌<◌, ◌≡◌, refl, Bool, true, false, Option, none, some, List, arith,
  length, drop, length-take,
}
use mathlib.Core.Bool.{true≢false}
use pg_plansight.Scan.Verdict.{Simd}
use pg_plansight.Collector.{Result, ok, err, Parsing, parsed, failed, panicked, Intake, ParsedRange}
use pg_plansight.Collector.Boundary.{last_entry_boundary}
use pg_plansight.Collector.Entries.{last_entry_boundary-lt}
use pg_plansight.Collector.Range.{
  read_file_range, create_reader_with_range, collect_range, parse_held_back, parse_reader,
  parse_range_blocking,
}

-- A parsed range is not empty, ends in the window, at its end when nothing is held back; only a
-- range of which the end is held back can be without a boundary.
abbrev pub Reaches : {Q : Type 0} → Bool → ℕ → ℕ → Result (Option (ParsedRange Q)) → Type 0
Reaches hold_back start end err = Unit
Reaches hold_back start end (ok none) = hold_back ≡ true
Reaches hold_back start end (ok (some range)) =
    (start < range.end_offset)
    × (range.end_offset ≤ end)
    × (hold_back ≡ false → range.end_offset ≡ end)

length-read_file_range :
    (content : List ℕ) (start end : ℕ) → length (read_file_range content start end) ≤ end - start
unfolding read_file_range
length-read_file_range content start end =
    omega (arith, length-take (end - start) (drop start content))

module _ (s : Simd) (intake : Intake) where
  open intake use {Grouper}

  collect_range-Reaches :
      (p : Parsing Grouper) (hold_back : Bool) (start end e : ℕ)
      → start < e
      → e ≤ end
      → (hold_back ≡ false → e ≡ end)
      → Reaches hold_back start end (collect_range s intake p e).0
  unfolding collect_range
  collect_range-Reaches (parsed g) hold_back start end e a b c = (a, b, c)
  collect_range-Reaches (failed g) hold_back start end e a b c = tt
  collect_range-Reaches panicked hold_back start end e a b c = tt

  parse_held_back-Reaches :
      (g : Grouper) (start end : ℕ) (bytes : List ℕ) (boundary : Option ℕ)
      → length bytes ≤ end - start
      → ((k : ℕ) → boundary ≡ some k → k < length bytes)
      → Reaches true start end (parse_held_back s intake g start bytes boundary).0
  unfolding parse_held_back
  parse_held_back-Reaches g start end bytes none short inside = refl
  parse_held_back-Reaches g start end bytes (some zero) short inside = refl
  parse_held_back-Reaches g start end bytes (some (suc b)) short inside =
      let lt = inside (suc b) refl in
      collect_range-Reaches _ true start end (start + suc b) (omega arith)
        (omega (arith, lt, short)) (λ e. absurd (true≢false e))

  reader-lt :
      (content : List ℕ) (start end : ℕ) (bytes : List ℕ)
      → create_reader_with_range intake content start end ≡ ok bytes
      → start < end
  unfolding create_reader_with_range
  reader-lt content start end bytes e = ground arith

  parse_reader-Reaches :
      (g : Grouper) (start end : ℕ) (r : Result (List ℕ))
      → ((bytes : List ℕ) → r ≡ ok bytes → start < end)
      → Reaches false start end (parse_reader s intake g end r).0
  unfolding parse_reader
  parse_reader-Reaches g start end err h = tt
  parse_reader-Reaches g start end (ok bytes) h =
      collect_range-Reaches _ false start end end (h bytes refl) (omega arith) (λ e. refl)

  pub parse_range_blocking-Reaches :
      (g : Grouper) (content : Option (List ℕ)) (start end : ℕ) (hold_back : Bool)
      → Reaches hold_back start end (parse_range_blocking s intake g content start end hold_back).0
  unfolding parse_range_blocking
  parse_range_blocking-Reaches g none start end hold_back = tt
  parse_range_blocking-Reaches g (some content) start end true =
      let bytes = read_file_range content start end in
      parse_held_back-Reaches g start end bytes (last_entry_boundary s bytes)
        (length-read_file_range content start end) (last_entry_boundary-lt s bytes)
  parse_range_blocking-Reaches g (some content) start end false =
      parse_reader-Reaches g start end _ (reader-lt content start end)
