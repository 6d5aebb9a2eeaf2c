-- ===== src/Log/Agree.antt =====
-- The two line readers of crates/core against each other: the loop of
-- crates/core/src/log_parser.rs and `process_line` of crates/core/src/parsing/log_entry_parser.rs.
use pg_plansight.Prelude.{
  ℕ, ◌+◌, ◌≤◌, ◌≡◌, refl, sym, ap, ap₂, ◌∙◌, inl, inr, Option, none, some, List, [], ◌==◌, le→ltb,
  Bool-cases, if_true, if_false, length,
}
use mathlib.Core.Option.{none-ne-some, some-injective}
use pg_plansight.Grouping.Plans.{QueryPlan}
use pg_plansight.Log.{Text, trim, trim_end}
use pg_plansight.Log.Builders.{Formats}
use pg_plansight.Log.State.{
  LogParsingState, ContinuationOutcome, reset_with_builder, finish, advance_continuation,
}
use pg_plansight.Log.Reader.{
  PlanSink, is_no_entry, Reading, deliver, bound_entry, end_entry, start_entry, log_line,
  continuation_line, any_line, take_line, start_line, entry_line, continued,
  process_continuation_line, dispatch_line, process_line,
}

module _ (formats : Formats) (decode : List ℕ → Text) (max_line_bytes max_entry_bytes : ℕ)
    (plan_sink : PlanSink) where
  open formats use {split_log_line, parse_duration, parse_timestamp, database}

  abbrev Read : Type 0
  Read = Reading formats decode max_line_bytes max_entry_bytes plan_sink

  abbrev handed : Read → Option QueryPlan → plan_sink.Sink
  handed r plan =
      deliver formats decode max_line_bytes max_entry_bytes plan_sink r.sink plan r.current_database

  -- A reading comes to this state and hands on this plan, under the name that it had.
  record Goes (r : Read) (plan : Option QueryPlan) (next : LogParsingState) (q : Read)
      : Type 0 where
    pub state : q.parsing_state ≡ next
    pub sink :
        q.sink
        ≡ deliver formats decode max_line_bytes max_entry_bytes plan_sink r.sink plan
            r.current_database

  start_entry-Goes :
      (r : Read) (message : Text) (duration : ℕ) (o : Option ℕ) (plan : Option QueryPlan)
      (next : LogParsingState)
      → start_line formats r.parsing_state duration o ≡ (some plan, next)
      → Goes r plan next
          (start_entry formats decode max_line_bytes max_entry_bytes plan_sink r message duration o)
  unfolding start_line reset_with_builder finish
  start_entry-Goes r message duration none plan next e =
      absurd (none-ne-some plan (ap (λ p. p.0) e))
  start_entry-Goes r message duration (some timestamp) plan next e = record {
    state = ap (λ p. p.1) e;
    sink = ap (handed r) (some-injective _ _ (ap (λ p. p.0) e));
  }

  end_entry-Goes :
      (r : Read) (plan : Option QueryPlan) (next : LogParsingState)
      → entry_line formats r.parsing_state [] none ≡ (some plan, next)
      → Goes r plan next (end_entry formats decode max_line_bytes max_entry_bytes plan_sink r)
  unfolding finish entry_line
  end_entry-Goes r plan next e = record {
    state = ap (λ p. p.1) e;
    sink = ap (handed r) (some-injective _ _ (ap (λ p. p.0) e));
  }

  log_line-Goes :
      (r : Read) (timestamp message : Text) (o : Option ℕ) (plan : Option QueryPlan)
      (next : LogParsingState)
      → entry_line formats r.parsing_state timestamp o ≡ (some plan, next)
      → Goes r plan next
          (log_line formats decode max_line_bytes max_entry_bytes plan_sink r timestamp message o)
  unfolding entry_line finish
  log_line-Goes r timestamp message none plan next e = end_entry-Goes r plan next e
  log_line-Goes r timestamp message (some duration) plan next e =
      start_entry-Goes r message duration (parse_timestamp timestamp) plan next e

  continued-plan :
      (outcome : ContinuationOutcome) (plan : Option QueryPlan) (next : LogParsingState)
      → continued formats outcome ≡ (some plan, next)
      → (outcome.plan ≡ plan) × (outcome.state ≡ next)
  continued-plan outcome plan next e = (
    elim (Bool-cases outcome.error) [
      | inl f ↦ absurd (none-ne-some plan (sym (if_true _ _ f) ∙ ap (λ p. p.0) e))
      | inr f ↦ some-injective _ _ (sym (if_false _ _ f) ∙ ap (λ p. p.0) e)
    ],
    ap (λ p. p.1) e,
  )

  continuation_line-Goes :
      (r : Read) (line : Text) (plan : Option QueryPlan) (next : LogParsingState)
      → process_continuation_line formats r.parsing_state line ≡ (some plan, next)
      → Goes r plan next
          (continuation_line formats decode max_line_bytes max_entry_bytes plan_sink r line)
  unfolding continuation_line process_continuation_line
  continuation_line-Goes r line plan next e = elim (Bool-cases (length (trim line) == 0)) [
    | inl f ↦
        let same = sym (if_true _ _ f) ∙ e in
        rw f record {
          state = ap (λ p. p.1) same;
          sink = ap (handed r) (some-injective _ _ (ap (λ p. p.0) same));
        }
    | inr f ↦
        let (found, state) =
          continued-plan (advance_continuation formats r.parsing_state line) plan next
            (sym (if_false _ _ f) ∙ e) in
        rw f record { state = state; sink = ap (handed r) found }
  ]

  any_line-Goes :
      (r : Read) (line : Text) (o : Option (Text × Text)) (plan : Option QueryPlan)
      (next : LogParsingState)
      → dispatch_line formats r.parsing_state line o ≡ (some plan, next)
      → Goes r plan next (any_line formats decode max_line_bytes max_entry_bytes plan_sink r line o)
  unfolding any_line dispatch_line
  any_line-Goes r line none plan next e = continuation_line-Goes r line plan next e
  any_line-Goes r line (some (timestamp, message)) plan next e =
      log_line-Goes r timestamp message (parse_duration message) plan next e

  -- An entry within its limit.
  bounded-same :
      (r : Read) (n : ℕ)
      → r.entry_bytes + n ≤ max_entry_bytes
      → let b = bound_entry formats decode max_line_bytes max_entry_bytes plan_sink r n in
        (b.parsing_state ≡ r.parsing_state)
        × (b.sink ≡ r.sink)
        × (b.current_database ≡ r.current_database)
  unfolding bound_entry
  bounded-same r n fits = elim (Bool-cases (is_no_entry r.parsing_state)) [
    | inl e ↦ rw e (refl, refl, refl)
    | inr e ↦ rw (e, le→ltb max_entry_bytes (r.entry_bytes + n) fits) (refl, refl, refl)
  ]

  -- The streaming loop and the line-at-a-time parser agree: on a line of which `process_line` makes
  -- no error, and with the entry within its limit, the loop comes to the same state and delivers the
  -- plan that `process_line` returns, if there is one, with the database that it had before the
  -- line. Both are given one way to split a log line and to read its timestamp.
  pub take_line-process_line :
      (r : Read) (line : List ℕ) (plan : Option QueryPlan) (next : LogParsingState)
      → r.entry_bytes + length line ≤ max_entry_bytes
      → process_line formats r.parsing_state (decode line) ≡ (some plan, next)
      → let q = take_line formats decode max_line_bytes max_entry_bytes plan_sink r line in
        (q.parsing_state ≡ next)
        × (q.sink
            ≡ deliver formats decode max_line_bytes max_entry_bytes plan_sink r.sink plan
                r.current_database)
  unfolding take_line process_line
  take_line-process_line r line plan next fits e =
      let b = bound_entry formats decode max_line_bytes max_entry_bytes plan_sink r (length line) in
      let (state, sink, name) = bounded-same r (length line) fits in
      let shown = trim_end (decode line) in
      let goes =
        any_line-Goes b shown (split_log_line shown) plan next
          (ap (λ x. dispatch_line formats x shown (split_log_line shown)) state ∙ e) in
      (
        goes.state,
        goes.sink
            ∙ ap₂
                (λ found label.
                  deliver formats decode max_line_bytes max_entry_bytes plan_sink found plan label)
                sink name,
      )
