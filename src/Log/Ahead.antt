-- ===== src/Log/Ahead.antt =====
-- Two readings of the same lines (crates/core/src/log_parser.rs), one of which has delivered some
-- plans before.
use pg_plansight.Prelude.{
  ℕ, ◌≡◌, refl, ap, ap₂, ◌∙◌, ◌⊎◌, inl, inr, Option, none, some, List, ◌++◌, append_assoc, ◌==◌,
  Bool-cases, length,
}
use pg_plansight.Grouping.Plans.{QueryPlan}
use pg_plansight.Log.{Text, trim}
use pg_plansight.Log.Builders.{Formats}
use pg_plansight.Log.State.{
  LogParsingState, no_entry, finalize_plan, reset_with_builder, finish, advance_continuation,
}
use pg_plansight.Log.Reader.{
  vec_sink, Reading, deliver, end_entry, start_entry, log_line, continuation_line, any_line,
  take_line,
}

module _ (formats : Formats) (decode : List ℕ → Text) (max_line_bytes max_entry_bytes : ℕ) where
  open formats use {split_log_line, parse_duration, parse_timestamp, database}

  abbrev pub Read : Type 0
  Read = Reading formats decode max_line_bytes max_entry_bytes vec_sink

  abbrev pub after_line : Read → List ℕ → Read
  after_line = take_line formats decode max_line_bytes max_entry_bytes vec_sink

  abbrev pub handed : List QueryPlan → Option QueryPlan → Option Text → List QueryPlan
  handed = deliver formats decode max_line_bytes max_entry_bytes vec_sink

  -- One reading is where another one is, with these plans before its own. The name of the database
  -- is only used inside an entry.
  pub record Ahead (plans : List QueryPlan) (r q : Read) : Type 0 where
    pub state : r.parsing_state ≡ q.parsing_state
    pub sink : r.sink ≡ plans ++ q.sink
    pub name : (q.parsing_state ≡ no_entry) ⊎ (r.current_database ≡ q.current_database)

  handed-append :
      (plans found : List QueryPlan) (plan : Option QueryPlan) (name : Option Text)
      → handed (plans ++ found) plan name ≡ plans ++ handed found plan name
  handed-append plans found none name = refl
  handed-append plans found (some plan) name = append_assoc plans found _

  pub handed-Ahead :
      (plans : List QueryPlan) (r q : Read) (o : Option QueryPlan)
      → Ahead plans r q
      → (q.parsing_state ≡ no_entry → o ≡ none)
      → handed r.sink o r.current_database ≡ plans ++ handed q.sink o q.current_database
  handed-Ahead plans r q o ahead outside = elim ahead.name [
    | inl idle ↦ rw (outside idle) ahead.sink
    | inr same ↦
        ap₂ (λ sink name. handed sink o name) ahead.sink same
        ∙ handed-append plans q.sink o q.current_database
  ]

  pub finalize_no_entry :
      (state : LogParsingState) → state ≡ no_entry → finalize_plan formats state ≡ none
  unfolding finalize_plan
  finalize_no_entry state e = ap (finalize_plan formats) e

  pub end_entry-Ahead :
      (plans : List QueryPlan) (r q : Read)
      → Ahead plans r q
      → Ahead plans
          (end_entry formats decode max_line_bytes max_entry_bytes vec_sink r)
          (end_entry formats decode max_line_bytes max_entry_bytes vec_sink q)
  unfolding finish
  end_entry-Ahead plans r q ahead = record {
    state = refl;
    sink =
        ap (λ state. handed r.sink (finalize_plan formats state) r.current_database) ahead.state
        ∙ handed-Ahead plans r q (finalize_plan formats q.parsing_state) ahead
            (finalize_no_entry q.parsing_state);
    name = inl refl;
  }

  start_entry-Ahead :
      (plans : List QueryPlan) (r q : Read) (message : Text) (duration : ℕ) (o : Option ℕ)
      → Ahead plans r q
      → Ahead plans
          (start_entry formats decode max_line_bytes max_entry_bytes vec_sink r message duration o)
          (start_entry formats decode max_line_bytes max_entry_bytes vec_sink q message duration o)
  unfolding reset_with_builder
  start_entry-Ahead plans r q message duration none ahead = end_entry-Ahead plans r q ahead
  start_entry-Ahead plans r q message duration (some timestamp) ahead = record {
    state = refl;
    sink =
        ap (λ state. handed r.sink (finalize_plan formats state) r.current_database) ahead.state
        ∙ handed-Ahead plans r q (finalize_plan formats q.parsing_state) ahead
            (finalize_no_entry q.parsing_state);
    name = inr refl;
  }

  log_line-Ahead :
      (plans : List QueryPlan) (r q : Read) (timestamp message : Text) (o : Option ℕ)
      → Ahead plans r q
      → Ahead plans
          (log_line formats decode max_line_bytes max_entry_bytes vec_sink r timestamp message o)
          (log_line formats decode max_line_bytes max_entry_bytes vec_sink q timestamp message o)
  log_line-Ahead plans r q timestamp message none ahead = end_entry-Ahead plans r q ahead
  log_line-Ahead plans r q timestamp message (some duration) ahead =
      start_entry-Ahead plans r q message duration (parse_timestamp timestamp) ahead

  -- Outside an entry a continuation line does nothing.
  outside_plan :
      (state : LogParsingState) (line : Text)
      → state ≡ no_entry
      → (advance_continuation formats state line).plan ≡ none
  unfolding advance_continuation
  outside_plan state line e = ap (λ x. (advance_continuation formats x line).plan) e

  outside_state :
      (state : LogParsingState) (line : Text)
      → state ≡ no_entry
      → (advance_continuation formats state line).state ≡ no_entry
  unfolding advance_continuation
  outside_state state line e = ap (λ x. (advance_continuation formats x line).state) e

  continuation_line-Ahead :
      (plans : List QueryPlan) (r q : Read) (line : Text)
      → Ahead plans r q
      → Ahead plans
          (continuation_line formats decode max_line_bytes max_entry_bytes vec_sink r line)
          (continuation_line formats decode max_line_bytes max_entry_bytes vec_sink q line)
  unfolding continuation_line
  continuation_line-Ahead plans r q line ahead = elim (Bool-cases (length (trim line) == 0)) [
    | inl e ↦ rw e ahead
    | inr e ↦ rw e record {
      state = ap (λ state. (advance_continuation formats state line).state) ahead.state;
      sink =
          ap
            (λ state.
              handed r.sink (advance_continuation formats state line).plan r.current_database)
            ahead.state
          ∙ handed-Ahead plans r q (advance_continuation formats q.parsing_state line).plan ahead
              (outside_plan q.parsing_state line);
      name = elim ahead.name [
        | inl idle ↦ inl (outside_state q.parsing_state line idle)
        | inr same ↦ inr same
      ];
    }
  ]

  abbrev pub any_of : Read → Text → Option (Text × Text) → Read
  any_of = any_line formats decode max_line_bytes max_entry_bytes vec_sink

  pub any_line-Ahead :
      (plans : List QueryPlan) (r q : Read) (line : Text) (o : Option (Text × Text))
      → Ahead plans r q
      → Ahead plans (any_of r line o) (any_of q line o)
  unfolding any_line
  any_line-Ahead plans r q line none ahead = continuation_line-Ahead plans r q line ahead
  any_line-Ahead plans r q line (some (timestamp, message)) ahead =
      log_line-Ahead plans r q timestamp message (parse_duration message) ahead
