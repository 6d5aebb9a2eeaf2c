-- ===== src/Collector/Reads.antt =====
-- Which bytes `parse_range_blocking` of crates/exporter/src/collector.rs hands to the parser.
use pg_plansight.Prelude.{
  ℕ, zero, suc, ◌+◌, ◌-◌, ◌≤◌, ◌<◌, ◌≡◌, refl, sym, ap, ◌∙◌, Bool, true, false, Option, none, some,
  List, [], ◌∷◌, arith, length, take, drop, length-take, length-drop,
}
use pg_plansight.Scan.Verdict.{Simd}
use pg_plansight.Collector.{Result, ok, err, Parsing, parsed, failed, panicked, Intake, ParsedRange}
use pg_plansight.Collector.Boundary.{last_entry_boundary}
use pg_plansight.Collector.Entries.{last_entry_boundary-lt}
use pg_plansight.Collector.Range.{
  read_file_range, is_gzip, is_bzip2, is_compressed_file, create_reader_with_range, collect_range,
  parse_held_back, parse_reader, parse_range_blocking,
}

take-take {ℓ} : {A : Type ℓ} (n m : ℕ) (xs : List A) → n ≤ m → take n (take m xs) ≡ take n xs
take-take zero m xs h = refl
take-take (suc n) zero xs h = absurd (omega arith)
take-take (suc n) (suc m) [] h = refl
take-take (suc n) (suc m) (x ∷ xs) h = ap (◌∷◌ x) (take-take n m xs (omega arith))

take-drop-take {ℓ} :
    {A : Type ℓ} (n a m : ℕ) (xs : List A)
    → a + n ≤ m
    → take n (drop a (take m xs)) ≡ take n (drop a xs)
take-drop-take n zero m xs h = take-take n m xs (omega arith)
take-drop-take n (suc a) zero xs h = absurd (omega arith)
take-drop-take n (suc a) (suc m) [] h = refl
take-drop-take n (suc a) (suc m) (x ∷ xs) h = take-drop-take n a m xs (omega arith)

-- A range that ends inside a prefix is the same range of the whole.
pub read_file_range-take :
    (content : List ℕ) (m a b : ℕ)
    → a ≤ b
    → b ≤ m
    → read_file_range (take m content) a b ≡ read_file_range content a b
unfolding read_file_range
read_file_range-take content m a b h k = take-drop-take (b - a) a m content (omega arith)

take-read_file_range :
    (content : List ℕ) (a b k : ℕ)
    → k ≤ b - a
    → take k (read_file_range content a b) ≡ read_file_range content a (a + k)
unfolding read_file_range
take-read_file_range content a b k h =
    take-take k (b - a) (drop a content) h ∙ ap (λ n. take n (drop a content)) (omega arith)

range_bounds :
    (content : List ℕ) (a b k : ℕ)
    → k < length (read_file_range content a b)
    → (k ≤ b - a) × (a + k ≤ length content)
unfolding read_file_range
range_bounds content a b k h =
    let short = length-take (b - a) (drop a content) in
    let rest = length-drop a content in (omega (arith, h, short), omega (arith, h, short, rest))

-- A prefix of a file that is not compressed does not look so.
pub is_compressed_file-take :
    (m : ℕ) (content : List ℕ)
    → is_compressed_file (some content) ≡ false
    → is_compressed_file (some (take m content)) ≡ false
unfolding is_compressed_file is_gzip is_bzip2
is_compressed_file-take zero content h = refl
is_compressed_file-take (suc m) [] h = refl
is_compressed_file-take (suc zero) (a ∷ content) h = refl
is_compressed_file-take (suc (suc m)) (a ∷ []) h = refl
is_compressed_file-take (suc (suc zero)) (a ∷ b ∷ content) h = refl
is_compressed_file-take (suc (suc (suc m))) (a ∷ b ∷ []) h = refl
is_compressed_file-take (suc (suc (suc m))) (a ∷ b ∷ c ∷ content) h = h

reader_lem :
    (intake : Intake) (content : List ℕ) (start end : ℕ) (bytes : List ℕ)
    → is_compressed_file (some content) ≡ false
    → create_reader_with_range intake content start end ≡ ok bytes
    → (end ≤ length content) × (bytes ≡ read_file_range content start end)
unfolding create_reader_with_range is_compressed_file
reader_lem intake content start end bytes plain e = (ground arith, ground arith)

-- Taking the groups empties a grouper, and a fresh one is empty.
pub record Empties (intake : Intake) (IsEmptied : intake.Grouper → Type 0) : Type 0 where
  pub by_take : (g : intake.Grouper) → IsEmptied (intake.take_groups g).1
  pub at_first : IsEmptied intake.fresh

module _ (s : Simd) (intake : Intake) (IsEmptied : intake.Grouper → Type 0) where
  open intake use {Grouper, Queries, parse_into_grouper, take_groups}

  -- The queries are those that the parser adds, from the bytes from a to b, which the file has, to
  -- a grouper that holds nothing.
  pub record ReadFrom (content : List ℕ) (a b : ℕ) (q : Queries) : Type 0 where
    pub before : Grouper
    pub after : Grouper
    pub emptied : IsEmptied before
    pub parses : parse_into_grouper (read_file_range content a b) before ≡ parsed after
    pub taken : (take_groups after).0 ≡ q
    pub inside : b ≤ length content

  abbrev pub Reads : List ℕ → ℕ → Result (Option (ParsedRange Queries)) → Type 0
  Reads content start (ok (some range)) =
      ReadFrom content start range.end_offset range.processed_queries
  Reads content start (ok none) = Unit
  Reads content start err = Unit

  collect_range-Reads :
      (content bytes : List ℕ) (g : Grouper) (p : Parsing Grouper) (start end : ℕ)
      → parse_into_grouper bytes g ≡ p
      → bytes ≡ read_file_range content start end
      → end ≤ length content
      → IsEmptied g
      → Reads content start (collect_range s intake p end).0
  unfolding collect_range
  collect_range-Reads content bytes g (parsed g1) start end e f h empty = record {
    before = g;
    after = g1;
    emptied = empty;
    parses = sym (ap (λ bs. parse_into_grouper bs g) f) ∙ e;
    taken = refl;
    inside = h;
  }
  collect_range-Reads content bytes g (failed g1) start end e f h empty = tt
  collect_range-Reads content bytes g panicked start end e f h empty = tt

  parse_held_back-Reads :
      (content : List ℕ) (g : Grouper) (start end : ℕ) (boundary : Option ℕ)
      → IsEmptied g
      → ((k : ℕ) → boundary ≡ some k → k < length (read_file_range content start end))
      → Reads content start
          (parse_held_back s intake g start (read_file_range content start end) boundary).0
  unfolding parse_held_back
  parse_held_back-Reads content g start end none empty inside = tt
  parse_held_back-Reads content g start end (some zero) empty inside = tt
  parse_held_back-Reads content g start end (some (suc b)) empty inside =
      let (within, there) = range_bounds content start end (suc b) (inside (suc b) refl) in
      collect_range-Reads content _ g _ start (start + suc b) refl
        (take-read_file_range content start end (suc b) within) there empty

  parse_reader-Reads :
      (content : List ℕ) (g : Grouper) (start end : ℕ) (r : Result (List ℕ))
      → IsEmptied g
      → ((bytes : List ℕ)
          → r ≡ ok bytes
          → (end ≤ length content) × (bytes ≡ read_file_range content start end))
      → Reads content start (parse_reader s intake g end r).0
  unfolding parse_reader
  parse_reader-Reads content g start end err empty h = tt
  parse_reader-Reads content g start end (ok bytes) empty h =
      let (there, same) = h bytes refl in
      collect_range-Reads content bytes g _ start end refl same there empty

  pub parse_range_blocking-Reads :
      (g : Grouper) (content : List ℕ) (start end : ℕ) (hold_back : Bool)
      → is_compressed_file (some content) ≡ false
      → IsEmptied g
      → Reads content start (parse_range_blocking s intake g (some content) start end hold_back).0
  unfolding parse_range_blocking
  parse_range_blocking-Reads g content start end true plain empty =
      parse_held_back-Reads content g start end
        (last_entry_boundary s (read_file_range content start end)) empty
        (last_entry_boundary-lt s (read_file_range content start end))
  parse_range_blocking-Reads g content start end false plain empty =
      parse_reader-Reads content g start end _ empty
        (λ bytes e. reader_lem intake content start end bytes plain e)

  module _ (empties : Empties intake IsEmptied) where
    collect_range-Emptied :
        (p : Parsing Grouper) (end : ℕ) → IsEmptied (collect_range s intake p end).1
    unfolding collect_range
    collect_range-Emptied (parsed g) end = empties.by_take g
    collect_range-Emptied (failed g) end = empties.by_take g
    collect_range-Emptied panicked end = empties.at_first

    parse_held_back-Emptied :
        (g : Grouper) (start : ℕ) (bytes : List ℕ) (boundary : Option ℕ)
        → IsEmptied g
        → IsEmptied (parse_held_back s intake g start bytes boundary).1
    unfolding parse_held_back
    parse_held_back-Emptied g start bytes none empty = empty
    parse_held_back-Emptied g start bytes (some zero) empty = empty
    parse_held_back-Emptied g start bytes (some (suc b)) empty = collect_range-Emptied _ _

    parse_reader-Emptied :
        (g : Grouper) (end : ℕ) (r : Result (List ℕ)) → IsEmptied (parse_reader s intake g end r).1
    unfolding parse_reader
    parse_reader-Emptied g end err = empties.by_take g
    parse_reader-Emptied g end (ok bytes) = collect_range-Emptied _ _

    -- However the parse of a range ends, no plan of it stays in the grouper.
    pub parse_range_blocking-Emptied :
        (g : Grouper) (content : Option (List ℕ)) (start end : ℕ) (hold_back : Bool)
        → IsEmptied g
        → IsEmptied (parse_range_blocking s intake g content start end hold_back).1
    unfolding parse_range_blocking
    parse_range_blocking-Emptied g none start end hold_back empty = empties.by_take g
    parse_range_blocking-Emptied g (some content) start end true empty =
        parse_held_back-Emptied g start (read_file_range content start end) _ empty
    parse_range_blocking-Emptied g (some content) start end false empty =
        parse_reader-Emptied g end (create_reader_with_range intake content start end)
