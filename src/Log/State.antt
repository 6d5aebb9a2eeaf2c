-- ===== src/Log/State.antt =====
-- The state machine of crates/core/src/parsing/log_entry_parser.rs.
use pg_plansight.Prelude.{Bool, true, false, ◌||◌, Option, none, some, [], ◌∷◌, ◌==◌, if◌then◌else◌}
use pg_plansight.Scan.Plain.{codes}
use pg_plansight.Grouping.Plans.{QueryPlan}
use pg_plansight.Log.{Text, trim, trim_start, strip_prefix}
use pg_plansight.Log.Builders.{
  Formats, JsonPlanBuilder, QueryPlanBuilder, untyped, text, json, convert_to_text, convert_to_json,
  set_query_text, append_query_line, Added, added, add_failed, add_text_line, JsonLineOutcome,
  incomplete, complete, not_a_plan, finalize_text, add_json_line, finalize_json, into_query_builder,
}

pub data LogParsingState : Type 0 where
  no_entry : LogParsingState
  waiting_for_query : QueryPlanBuilder → LogParsingState
  parsing_query : QueryPlanBuilder → LogParsingState
  parsing_text_plan : QueryPlanBuilder → LogParsingState
  parsing_json_plan : QueryPlanBuilder → Text → LogParsingState

-- Whether there is an error, in place of the error.
pub record ContinuationOutcome : Type 0 where
  pub state : LogParsingState
  pub plan : Option QueryPlan
  pub error : Bool

-- `ContinuationOutcome::to`
abbrev pub move_to : LogParsingState → ContinuationOutcome
move_to state = record { state = state; plan = none; error = false }

-- `looks_like_json_start` of crates/core/src/parsing/format_detection.rs.
abbrev pub starts_json : Text → Bool
starts_json [] = false
starts_json (c ∷ cs) = c == b'[' || c == b'{'

unfoldable pub looks_like_json_start : Text → Bool
looks_like_json_start line = starts_json (trim_start line)

module _ (formats : Formats) where
  open formats use {is_plan_line}

  unfoldable pub finalize_plan : LogParsingState → Option QueryPlan
  finalize_plan no_entry = none
  finalize_plan (waiting_for_query b) = none
  finalize_plan (parsing_query b) = none
  finalize_plan (parsing_text_plan (text b)) = finalize_text formats b
  finalize_plan (parsing_text_plan (untyped b)) = none
  finalize_plan (parsing_text_plan (json b)) = none
  finalize_plan (parsing_json_plan (json b) content) = finalize_json formats b
  finalize_plan (parsing_json_plan (untyped b) content) = none
  finalize_plan (parsing_json_plan (text b) content) = none

  unfoldable pub reset_with_builder :
      LogParsingState → QueryPlanBuilder → Option QueryPlan × LogParsingState
  reset_with_builder state builder = (finalize_plan state, waiting_for_query builder)

  unfoldable pub finish : LogParsingState → Option QueryPlan × LogParsingState
  finish state = (finalize_plan state, no_entry)

  unfoldable pub after_json : JsonPlanBuilder × JsonLineOutcome → ContinuationOutcome
  after_json (b, complete plan) = record { state = no_entry; plan = some plan; error = false }
  after_json (b, incomplete) = move_to (parsing_json_plan (json b) [])
  after_json (b, not_a_plan) = move_to (parsing_query (untyped (into_query_builder b)))

  abbrev pub advance_json_builder : JsonPlanBuilder → Text → ContinuationOutcome
  advance_json_builder b trimmed = after_json (add_json_line formats b trimmed)

  unfoldable pub start_json : QueryPlanBuilder → Text → ContinuationOutcome
  start_json (json b) trimmed = advance_json_builder b trimmed
  start_json (untyped b) trimmed = move_to (parsing_json_plan (untyped b) [])
  start_json (text b) trimmed = move_to (parsing_json_plan (text b) [])

  unfoldable pub after_text : Added → ContinuationOutcome
  after_text (added b (some plan)) = record { state = no_entry; plan = some plan; error = false }
  after_text (added b none) = move_to (parsing_text_plan (text b))
  after_text add_failed = record { state = no_entry; plan = none; error = true }

  unfoldable pub advance_text : QueryPlanBuilder → Text → ContinuationOutcome
  advance_text (text b) line_trimmed = after_text (add_text_line b line_trimmed)
  advance_text (untyped b) line_trimmed = move_to (parsing_text_plan (untyped b))
  advance_text (json b) line_trimmed = move_to (parsing_text_plan (json b))

  -- `WaitingForQuery`, with what follows "Query Text:".
  unfoldable pub wait_for_query : QueryPlanBuilder → Text → Option Text → ContinuationOutcome
  wait_for_query builder trimmed (some query_text) =
      move_to (parsing_query (set_query_text builder (trim query_text)))
  wait_for_query builder trimmed none =
      if looks_like_json_start trimmed
      then start_json (convert_to_json builder) trimmed
      else move_to (waiting_for_query builder)

  unfoldable pub advance_continuation : LogParsingState → Text → ContinuationOutcome
  advance_continuation no_entry line_trimmed = move_to no_entry
  advance_continuation (waiting_for_query builder) line_trimmed =
      let trimmed = trim line_trimmed in
      wait_for_query builder trimmed (strip_prefix (codes "Query Text:") trimmed)
  advance_continuation (parsing_query builder) line_trimmed =
      let trimmed = trim line_trimmed in
      if looks_like_json_start trimmed
      then start_json (convert_to_json builder) trimmed
      else if is_plan_line trimmed
      then advance_text (convert_to_text builder) line_trimmed
      else move_to (parsing_query (append_query_line builder line_trimmed))
  advance_continuation (parsing_text_plan builder) line_trimmed = advance_text builder line_trimmed
  advance_continuation (parsing_json_plan (json b) content) line_trimmed =
      advance_json_builder b (trim line_trimmed)
  advance_continuation (parsing_json_plan (untyped b) content) line_trimmed =
      move_to (parsing_json_plan (untyped b) content)
  advance_continuation (parsing_json_plan (text b) content) line_trimmed =
      move_to (parsing_json_plan (text b) content)
