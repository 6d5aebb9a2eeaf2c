-- ===== src/Log/Reader.antt =====
-- The read loop `parse_into_sink` of crates/core/src/log_parser.rs, its sinks, and the
-- line-at-a-time `LogEntryParser` of crates/core/src/parsing/log_entry_parser.rs.
use pg_plansight.Prelude.{
  ℕ, zero, suc, ◌+◌, Bool, true, false, ◌&&◌, not, Option, none, some, List, [], ◌∷◌, ◌++◌, ltb,
  ◌==◌, if◌then◌else◌, length,
}
use mathlib.Core.Option
use pg_plansight.Grouping.Plans.{QueryPlan}
use pg_plansight.Grouping.Cache.{Hashing}
use pg_plansight.Grouping.Grouper.{QueryGrouper, fold, is_full, mark_truncated}
use pg_plansight.Log.{Text, trim, trim_end}
use pg_plansight.Log.Builders.{Formats, newline, new_builder}
use pg_plansight.Log.State.{
  LogParsingState, no_entry, waiting_for_query, parsing_query, parsing_text_plan, parsing_json_plan,
  ContinuationOutcome, reset_with_builder, finish, advance_continuation,
}

-- The trait `PlanSink`.
pub record PlanSink : Type 1 where
  pub Sink : Type 0
  pub accept : Sink → QueryPlan → Sink
  pub full : Sink → Bool
  pub truncate : Sink → Sink

-- `Vec<QueryPlan>`
abbrev pub vec_sink : PlanSink
vec_sink = record {
  Sink = List QueryPlan;
  accept = λ plans plan. plans ++ (plan ∷ []);
  full = λ plans. false;
  truncate = λ plans. plans;
}

abbrev pub grouper_sink : Hashing → PlanSink
grouper_sink h = record {
  Sink = QueryGrouper;
  accept = λ g plan. (fold h g plan).1;
  full = is_full;
  truncate = mark_truncated;
}

-- A line up to its newline, cut after so many bytes, and the rest.
unfoldable pub read_until : ℕ → List ℕ → List ℕ × List ℕ
read_until zero bytes = ([], bytes)
read_until (suc n) [] = ([], [])
read_until (suc n) (b ∷ bytes) =
    let (line, rest) = read_until n bytes in
    if b == newline then (b ∷ [], bytes) else (b ∷ line, rest)

-- The loop over the remainder of an oversized line.
unfoldable pub skip_line : List ℕ → List ℕ
skip_line [] = []
skip_line (b ∷ bytes) = let rest = skip_line bytes in if b == newline then bytes else rest

abbrev pub ends_line : List ℕ → Bool
ends_line [] = false
ends_line (b ∷ []) = b == newline
ends_line (b ∷ c ∷ bytes) = ends_line (c ∷ bytes)

abbrev pub cut_line : ℕ → List ℕ × List ℕ → List ℕ × List ℕ
cut_line max_line_bytes (line, rest) =
    if length line == max_line_bytes && not (ends_line line)
    then (line, skip_line rest)
    else (line, rest)

unfoldable pub read_line : ℕ → List ℕ → List ℕ × List ℕ
read_line max_line_bytes bytes = cut_line max_line_bytes (read_until max_line_bytes bytes)

abbrev pub is_no_entry : LogParsingState → Bool
is_no_entry no_entry = true
is_no_entry (waiting_for_query b) = false
is_no_entry (parsing_query b) = false
is_no_entry (parsing_text_plan b) = false
is_no_entry (parsing_json_plan b content) = false

abbrev pub with_database : QueryPlan → Option Text → QueryPlan
with_database plan database = record plan { database = database }

-- `decode` reads bytes as UTF-8, putting U+FFFD for what is not.
module _ (formats : Formats) (decode : List ℕ → Text) (max_line_bytes max_entry_bytes : ℕ)
    (plan_sink : PlanSink) where
  open formats use {split_log_line, parse_duration, parse_timestamp, database}
  open plan_sink use {Sink, accept, full, truncate}

  -- The variables of the loop. Those that only feed the log and the progress are left out.
  pub record Reading : Type 0 where
    pub parsing_state : LogParsingState
    pub entry_bytes : ℕ
    pub current_database : Option Text
    pub sink : Sink

  abbrev pub deliver : Sink → Option QueryPlan → Option Text → Sink
  deliver sink none name = sink
  deliver sink (some plan) name = accept sink (with_database plan name)

  -- The bound on an entry.
  unfoldable pub bound_entry : Reading → ℕ → Reading
  bound_entry r bytes_read =
      if is_no_entry r.parsing_state
      then record r { entry_bytes = 0 }
      else if ltb max_entry_bytes (r.entry_bytes + bytes_read)
      then record r { parsing_state = no_entry; entry_bytes = 0 }
      else record r { entry_bytes = r.entry_bytes + bytes_read }

  -- A log line that ends the entry before it and starts none.
  abbrev pub end_entry : Reading → Reading
  end_entry r =
      let (plan, state) = finish formats r.parsing_state in
      record r { parsing_state = state; sink = deliver r.sink plan r.current_database }

  -- A log line with a duration, by its instant, none where it is not a date.
  abbrev pub start_entry : Reading → Text → ℕ → Option ℕ → Reading
  start_entry r message duration none = end_entry r
  start_entry r message duration (some timestamp) =
      let (plan, state) =
        reset_with_builder formats r.parsing_state (new_builder timestamp duration) in
      record r {
        parsing_state = state;
        current_database = database message;
        sink = deliver r.sink plan r.current_database;
      }

  abbrev pub log_line : Reading → Text → Text → Option ℕ → Reading
  log_line r timestamp message none = end_entry r
  log_line r timestamp message (some duration) =
      start_entry r message duration (parse_timestamp timestamp)

  unfoldable pub continuation_line : Reading → Text → Reading
  continuation_line r line_trimmed =
      let outcome = advance_continuation formats r.parsing_state line_trimmed in
      if length (trim line_trimmed) == 0 then r else record r {
        parsing_state = outcome.state;
        sink = deliver r.sink outcome.plan r.current_database;
      }

  unfoldable pub any_line : Reading → Text → Option (Text × Text) → Reading
  any_line r line_trimmed none = continuation_line r line_trimmed
  any_line r line_trimmed (some (timestamp, message)) =
      log_line r timestamp message (parse_duration message)

  -- One round of the loop, for the bytes of a line.
  unfoldable pub take_line : Reading → List ℕ → Reading
  take_line r line =
      let line_trimmed = trim_end (decode line) in
      any_line (bound_entry r (length line)) line_trimmed (split_log_line line_trimmed)

  abbrev pub stop_full : Reading → List ℕ → Reading
  stop_full r [] = r
  stop_full r (b ∷ bytes) = record r { sink = truncate r.sink }

  -- The loop, on fuel: none when it runs out.
  unfoldable pub read_loop : ℕ → List ℕ → Reading → Option Reading
  read_loop zero bytes r = none
  read_loop (suc n) bytes r =
      let (line, rest) = read_line max_line_bytes bytes in
      let next = read_loop n rest (take_line r line) in
      if full r.sink then some (stop_full r bytes) else if length line == 0 then some r else next

  abbrev pub start_reading : Sink → Reading
  start_reading sink = record {
    parsing_state = no_entry;
    entry_bytes = 0;
    current_database = none;
    sink = sink;
  }

  -- After the loop: the plan that is left.
  abbrev pub last_plan : Reading → Sink
  last_plan r = (end_entry r).sink

  -- The sink after a reader that yields its bytes without an error.
  unfoldable pub parse_into_sink : List ℕ → Sink → Option Sink
  parse_into_sink bytes sink =
      Option.map last_plan (read_loop (suc (length bytes)) bytes (start_reading sink))

-- `LogEntryParser::process_line` on the text of a line; none for its errors.
module _ (formats : Formats) where
  open formats use {split_log_line, parse_duration, parse_timestamp}

  abbrev pub Processed : Type 0
  Processed = Option (Option QueryPlan) × LogParsingState

  unfoldable pub start_line : LogParsingState → ℕ → Option ℕ → Processed
  start_line state duration none = (none, state)
  start_line state duration (some timestamp) =
      let (plan, next) = reset_with_builder formats state (new_builder timestamp duration) in
      (some plan, next)

  unfoldable pub entry_line : LogParsingState → Text → Option ℕ → Processed
  entry_line state timestamp none = let (plan, next) = finish formats state in (some plan, next)
  entry_line state timestamp (some duration) = start_line state duration (parse_timestamp timestamp)

  abbrev pub continued : ContinuationOutcome → Processed
  continued outcome = (if outcome.error then none else some outcome.plan, outcome.state)

  unfoldable pub process_continuation_line : LogParsingState → Text → Processed
  process_continuation_line state line_trimmed =
      if length (trim line_trimmed) == 0
      then (some none, state)
      else continued (advance_continuation formats state line_trimmed)

  unfoldable pub dispatch_line : LogParsingState → Text → Option (Text × Text) → Processed
  dispatch_line state line_trimmed none = process_continuation_line state line_trimmed
  dispatch_line state line_trimmed (some (timestamp, message)) =
      entry_line state timestamp (parse_duration message)

  unfoldable pub process_line : LogParsingState → Text → Processed
  process_line state line =
      let line_trimmed = trim_end line in
      dispatch_line state line_trimmed (split_log_line line_trimmed)
