-- ===== src/Log/Limit.antt =====
-- The limit on an entry in the read loop of crates/core/src/log_parser.rs.
use pg_plansight.Prelude.{
  ℕ, ◌+◌, ◌≤◌, ◌<◌, ◌≡◌, refl, inl, inr, false, none, some, List, arith, ◌==◌, lt→ltb, le→ltb,
  Bool-cases, length,
}
use pg_plansight.Log.{Text, trim, trim_end}
use pg_plansight.Log.Builders.{Formats}
use pg_plansight.Log.State.{no_entry, reset_with_builder, advance_continuation}
use pg_plansight.Log.Reader.{
  PlanSink, is_no_entry, Reading, bound_entry, continuation_line, any_line, take_line,
}

module _ (formats : Formats) (decode : List ℕ → Text) (max_line_bytes max_entry_bytes : ℕ)
    (plan_sink : PlanSink) where
  open formats use {split_log_line, parse_duration, parse_timestamp, database}

  abbrev Read : Type 0
  Read = Reading formats decode max_line_bytes max_entry_bytes plan_sink

  abbrev on : Read → List ℕ → Read
  on = take_line formats decode max_line_bytes max_entry_bytes plan_sink

  -- A log line that starts an entry.
  pub record Starts (line : List ℕ) : Type 0 where
    pub timestamp : Text
    pub message : Text
    pub duration : ℕ
    pub instant : ℕ
    pub split : split_log_line (trim_end (decode line)) ≡ some (timestamp, message)
    pub lasted : parse_duration message ≡ some duration
    pub dated : parse_timestamp timestamp ≡ some instant

  -- Inside an entry, the line that starts the next one is added to the count of the old one.
  start_counted :
      (r : Read) (line : List ℕ)
      → is_no_entry r.parsing_state ≡ false
      → r.entry_bytes + length line ≤ max_entry_bytes
      → Starts line
      → (is_no_entry (on r line).parsing_state ≡ false)
        × ((on r line).entry_bytes ≡ r.entry_bytes + length line)
  unfolding take_line any_line bound_entry reset_with_builder
  start_counted r line inside fits starts =
      rw
        (
          inside,
          le→ltb max_entry_bytes (r.entry_bytes + length line) fits,
          starts.split,
          starts.lasted,
          starts.dated,
        )
        (refl, refl)

  -- A continuation line beyond the limit.
  over_limit :
      (r : Read) (line : List ℕ)
      → is_no_entry r.parsing_state ≡ false
      → max_entry_bytes < r.entry_bytes + length line
      → split_log_line (trim_end (decode line)) ≡ none
      → (on r line).parsing_state ≡ no_entry
  unfolding take_line any_line bound_entry continuation_line advance_continuation
  over_limit r line inside over split =
      rw (inside, lt→ltb max_entry_bytes (r.entry_bytes + length line) over, split)
        (elim (Bool-cases (length (trim (trim_end (decode line))) == 0)) [
          | inl e ↦ rw e refl
          | inr e ↦ rw e refl
        ])

  -- The count of an entry's bytes goes on from one entry to the next where no other log line stands
  -- between them: a line that starts a new entry inside an old one does not set it back. So the new
  -- entry is discarded at its next line already, once both together exceed the limit, however short
  -- the new one is itself.
  pub take_line_discards :
      (r : Read) (first second : List ℕ)
      → is_no_entry r.parsing_state ≡ false
      → r.entry_bytes + length first ≤ max_entry_bytes
      → Starts first
      → split_log_line (trim_end (decode second)) ≡ none
      → max_entry_bytes < r.entry_bytes + length first + length second
      → (is_no_entry (on r first).parsing_state ≡ false)
        × ((on (on r first) second).parsing_state ≡ no_entry)
  take_line_discards r first second inside fits starts split over =
      let (entered, counted) = start_counted r first inside fits starts in
      (entered, over_limit (on r first) second entered (omega (arith, counted, over)) split)
