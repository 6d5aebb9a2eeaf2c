-- ===== src/Collector/Entries.antt =====
-- Where `last_entry_boundary` of crates/exporter/src/collector.rs cuts.
use pg_plansight.Prelude.{
  ℕ, ◌+◌, ◌≤◌, ◌<◌, ◌≡◌, refl, sym, ap, subst, ◌∙◌, ◌↔◌, ◌⊎◌, inl, inr, Bool, true, ◌&&◌, Option,
  none, some, List, [], ◌∷◌, ◌++◌, append_assoc, arith, if◌then◌else◌, Bool-cases, if_true,
  if_false, Option-cases, &&_true, length, length-append,
}
use mathlib.Core.Option.{none-ne-some, some-injective}
use pg_plansight.Scan.Verdict.{Simd}
use pg_plansight.Collector.Boundary.{
  split_inclusive, ends_line, is_timestamped_line, scan_lines, last_entry_boundary,
}
use pg_plansight.Collector.Lines.{
  no_inner, is_closed, total, total-split_inclusive, split_inclusive-append, split_one,
  whole-closed, ends_line-append, Lines, split_inclusive-Lines, concat, concat-split_inclusive,
  no_inner-ne,
}

-- At offset k of the bytes a whole line starts, newline included, that has a timestamp.
pub record EntryStart (s : Simd) (bytes : List ℕ) (k : ℕ) : Type 0 where
  pub before : List ℕ
  pub line : List ℕ
  pub after : List ℕ
  pub cut : bytes ≡ before ++ (line ++ after)
  pub offset : length before ≡ k
  pub closed : is_closed before ≡ true
  pub one : no_inner line ≡ true
  pub whole : ends_line line ≡ true
  pub stamped : is_timestamped_line s line ≡ true

module _ (s : Simd) where
  scan_lines-append :
      (ls ms : List (List ℕ)) (offset : ℕ) (last : Option ℕ)
      → scan_lines s (ls ++ ms) offset last
        ≡ scan_lines s ms (offset + total ls) (scan_lines s ls offset last)
  unfolding scan_lines
  scan_lines-append [] ms offset last = ap (λ o. scan_lines s ms o last) (omega arith)
  scan_lines-append (l ∷ ls) ms offset last =
      scan_lines-append ls ms (offset + length l) _
      ∙ ap (λ o. scan_lines s ms o (scan_lines s (l ∷ ls) offset last)) (omega arith)

  -- What is found is not forgotten, and only replaced by what is further on.
  scan_lines-ge :
      (ls : List (List ℕ)) (offset k : ℕ)
      → k ≤ offset
      → (r : ℕ) × (scan_lines s ls offset (some k) ≡ some r) × (k ≤ r)
  unfolding scan_lines
  scan_lines-ge [] offset k h = (k, refl, omega arith)
  scan_lines-ge (l ∷ ls) offset k h = elim (Bool-cases (ends_line l && is_timestamped_line s l)) [
    | inl e ↦
        let (r, found, le) = scan_lines-ge ls (offset + length l) offset (omega arith) in
        (r, rw e found, omega (arith, le, h))
    | inr e ↦
        let (r, found, le) = scan_lines-ge ls (offset + length l) k (omega arith) in
        (r, rw e found, le)
  ]

  abbrev from_start : List (List ℕ) → Option ℕ
  from_start lines = scan_lines s lines 0 none

  -- At a hit, the scan of the rest starts with it.
  scan_hit :
      (line : List ℕ) (ls : List (List ℕ)) (offset : ℕ) (last : Option ℕ)
      → ends_line line ≡ true
      → is_timestamped_line s line ≡ true
      → scan_lines s (line ∷ ls) offset last ≡ scan_lines s ls (offset + length line) (some offset)
  unfolding scan_lines
  scan_hit line ls offset last e f = rw (e, f) refl

  lines_at :
      (bytes : List ℕ) (j : ℕ) (e : EntryStart s bytes j)
      → split_inclusive bytes ≡ split_inclusive e.before ++ (e.line ∷ split_inclusive e.after)
  lines_at bytes j e =
      ap split_inclusive e.cut
      ∙ (split_inclusive-append e.before (e.line ++ e.after) e.closed
          ∙ ap (◌++◌ (split_inclusive e.before)) (
              split_inclusive-append e.line e.after (whole-closed e.line e.whole)
              ∙ ap (λ ls. ls ++ split_inclusive e.after) (split_one e.line e.one)))

  last_entry_boundary-ge :
      (bytes : List ℕ) (j : ℕ)
      → EntryStart s bytes j
      → (k : ℕ) × (last_entry_boundary s bytes ≡ some k) × (j ≤ k)
  unfolding last_entry_boundary
  last_entry_boundary-ge bytes j e =
      let at = total-split_inclusive e.before ∙ e.offset in
      let (r, found, le) =
        scan_lines-ge (split_inclusive e.after)
          (0 + total (split_inclusive e.before) + length e.line)
          (0 + total (split_inclusive e.before)) (omega arith) in
      (
        r,
        ap from_start (lines_at bytes j e)
            ∙ (scan_lines-append (split_inclusive e.before) _ 0 none
                ∙ (scan_hit e.line _ _ _ e.whole e.stamped ∙ found)),
        omega (arith, le, at),
      )

  abbrev is_hit : List ℕ → Bool
  is_hit l = ends_line l && is_timestamped_line s l

  hit-EntryStart :
      (before l after : List ℕ) (k : ℕ)
      → is_closed before ≡ true
      → no_inner l ≡ true
      → is_hit l ≡ true
      → some (length before) ≡ some k
      → EntryStart s (before ++ (l ++ after)) k
  hit-EntryStart before l after k c one hit e =
      let (whole, stamped) = &&_true (ends_line l) (is_timestamped_line s l) hit in
      record {
        before = before;
        line = l;
        after = after;
        cut = refl;
        offset = some-injective _ _ e;
        closed = c;
        one = one;
        whole = whole;
        stamped = stamped;
      }

  -- One line of the scan: a hit, or the last one stays.
  kept :
      (before l after : List ℕ) (last : Option ℕ) (k : ℕ)
      → is_closed before ≡ true
      → no_inner l ≡ true
      → (if is_hit l then some (length before) else last) ≡ some k
      → (last ≡ some k) ⊎ EntryStart s (before ++ (l ++ after)) k
  kept before l after last k c one e = elim (Bool-cases (is_hit l)) [
    | inl hit ↦ inr (hit-EntryStart before l after k c one hit (sym (if_true _ _ hit) ∙ e))
    | inr miss ↦ inl (sym (if_false _ _ miss) ∙ e)
  ]

  scan_lines-EntryStart :
      (ls : List (List ℕ)) (before : List ℕ) (last : Option ℕ) (k : ℕ)
      → Lines ls
      → is_closed before ≡ true
      → scan_lines s ls (length before) last ≡ some k
      → (last ≡ some k) ⊎ EntryStart s (before ++ concat ls) k
  unfolding scan_lines
  scan_lines-EntryStart [] before last k lines c e = inl e
  scan_lines-EntryStart (l ∷ []) before last k lines c e = kept before l [] last k c lines e
  scan_lines-EntryStart (l ∷ m ∷ ls) before last k (one, whole, lines) c e =
      elim (scan_lines-EntryStart (m ∷ ls) (before ++ l)
        (if is_hit l then some (length before) else last) k lines
        (whole-closed (before ++ l) (ends_line-append before l whole))
        (ap (λ o. scan_lines s (m ∷ ls) o (if is_hit l then some (length before) else last))
            (length-append before l)
          ∙ e)) [
            | inl f ↦ kept before l (concat (m ∷ ls)) last k c one f
            | inr f ↦
                inr (subst (λ bs. EntryStart s bs k) (append_assoc before l (concat (m ∷ ls))) f)
          ]

  last_entry_boundary-EntryStart :
      (bytes : List ℕ) (k : ℕ) → last_entry_boundary s bytes ≡ some k → EntryStart s bytes k
  unfolding last_entry_boundary
  last_entry_boundary-EntryStart bytes k e =
      elim (scan_lines-EntryStart (split_inclusive bytes) [] none k (split_inclusive-Lines bytes)
        refl e) [
          | inl f ↦ absurd (none-ne-some k f)
          | inr f ↦ subst (λ bs. EntryStart s bs k) (concat-split_inclusive bytes) f
        ]

  boundary_max :
      (bytes : List ℕ) (k : ℕ)
      → last_entry_boundary s bytes ≡ some k
      → (j : ℕ) → EntryStart s bytes j
      → j ≤ k
  boundary_max bytes k e j start =
      let (r, found, le) = last_entry_boundary-ge bytes j start in
      omega (arith, le, some-injective _ _ (sym found ∙ e))

  boundary_unique :
      (bytes : List ℕ) (k : ℕ)
      → EntryStart s bytes k
      → ((j : ℕ) → EntryStart s bytes j → j ≤ k)
      → last_entry_boundary s bytes ≡ some k
  boundary_unique bytes k start top =
      let (r, found, le) = last_entry_boundary-ge bytes k start in
      let back = top r (last_entry_boundary-EntryStart bytes r found) in
      found ∙ ap some (omega (arith, le, back))

  boundary_missing :
      (bytes : List ℕ) (j : ℕ) → last_entry_boundary s bytes ≡ none → ¬ EntryStart s bytes j
  boundary_missing bytes j e start =
      let (r, found, le) = last_entry_boundary-ge bytes j start in none-ne-some r (sym e ∙ found)

  boundary_absent :
      (bytes : List ℕ) → ((j : ℕ) → ¬ EntryStart s bytes j) → last_entry_boundary s bytes ≡ none
  boundary_absent bytes none_starts = elim (Option-cases (last_entry_boundary s bytes)) [
    | inl e ↦ e
    | inr (k, e) ↦ absurd (none_starts k (last_entry_boundary-EntryStart bytes k e))
  ]

  -- The boundary is the last offset of the range at which a whole line with a timestamp starts:
  -- such a line starts there, none starts further on, and where there is none at all, there is no
  -- boundary.
  pub last_entry_boundary_lem :
      (bytes : List ℕ) (k : ℕ)
      → ((last_entry_boundary s bytes ≡ some k)
          ↔ (EntryStart s bytes k × ((j : ℕ) → EntryStart s bytes j → j ≤ k)))
        × ((last_entry_boundary s bytes ≡ none) ↔ ((j : ℕ) → ¬ EntryStart s bytes j))
  last_entry_boundary_lem bytes k = (
    (
      λ e. (last_entry_boundary-EntryStart bytes k e, boundary_max bytes k e),
      λ found. boundary_unique bytes k found.0 found.1,
    ),
    (λ e j start. boundary_missing bytes j e start, boundary_absent bytes),
  )

  pub last_entry_boundary-lt :
      (bytes : List ℕ) (k : ℕ) → last_entry_boundary s bytes ≡ some k → k < length bytes
  last_entry_boundary-lt bytes k e =
      let start = last_entry_boundary-EntryStart bytes k e in
      omega (
        arith,
        ap length start.cut,
        length-append start.before (start.line ++ start.after),
        length-append start.line start.after,
        start.offset,
        no_inner-ne start.line start.one,
      )
