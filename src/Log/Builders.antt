-- ===== src/Log/Builders.antt =====
-- The plan builders of crates/core/src/parsing/plan_builders.rs.
use pg_plansight.Prelude.{
  ℕ, zero, suc, Bool, true, false, ◌&&◌, ◌||◌, Option, none, some, List, [], ◌∷◌, ◌++◌, ◌==◌,
  if◌then◌else◌, and_then, length,
}
use pg_plansight.Grouping.Plans.{Bytes, QueryPlan}
use pg_plansight.Log.{Text}

-- What serde_json makes of a document: an array with its first item, an object with the string
-- under its key "Query Text", or something else.
pub data Value (Document : Type 0) : Type 0 where
  array : Option Document → Value Document
  object : Document → Option Text → Value Document
  other_value : Value Document

-- The parsers of plans, serde_json and the regular expressions, any functions: the value of a JSON
-- text; the plan of a document and of a plan text, none for an error; whether a line looks like a
-- node of a plan text; a log line split at its timestamp; and the duration, the instant and the
-- database that the parts name.
pub record Formats : Type 1 where
  pub Document : Type 0
  pub json_value : Text → Option (Value Document)
  pub json_plan : Document → Option Bytes
  pub text_plan : Text → Option Bytes
  pub is_plan_line : Text → Bool
  pub split_log_line : Text → Option (Text × Text)
  pub parse_duration : Text → Option ℕ
  pub parse_timestamp : Text → Option ℕ
  pub database : Text → Option Text

-- A nesting depth, which brackets that close too much take below zero. It stays far from the
-- bounds of an `i32`, since an entry is of bounded length.
pub data ℤ : Type 0 where
  pos : ℕ → ℤ
  negsuc : ℕ → ℤ

abbrev pub up : ℤ → ℤ
up (pos n) = pos (suc n)
up (negsuc zero) = pos 0
up (negsuc (suc n)) = negsuc n

abbrev pub down : ℤ → ℤ
down (pos zero) = negsuc 0
down (pos (suc n)) = pos n
down (negsuc n) = negsuc (suc n)

abbrev pub is_at_most_zero : ℤ → Bool
is_at_most_zero (pos zero) = true
is_at_most_zero (pos (suc n)) = false
is_at_most_zero (negsuc n) = true

pub record UntypedPlanBuilder : Type 0 where
  pub timestamp : ℕ
  pub duration_ms : ℕ
  pub query_text : Text

pub record TextPlanBuilder : Type 0 where
  pub timestamp : ℕ
  pub duration_ms : ℕ
  pub query_text : Text
  pub content_lines : List Text

pub record JsonPlanBuilder : Type 0 where
  pub timestamp : ℕ
  pub duration_ms : ℕ
  pub query_text : Text
  pub json_content : Text
  pub depth : ℤ
  pub in_string : Bool
  pub escape_next : Bool
  pub started : Bool

pub data QueryPlanBuilder : Type 0 where
  untyped : UntypedPlanBuilder → QueryPlanBuilder
  text : TextPlanBuilder → QueryPlanBuilder
  json : JsonPlanBuilder → QueryPlanBuilder

abbrev pub newline : ℕ
newline = 10

unfoldable pub new_builder : ℕ → ℕ → QueryPlanBuilder
new_builder timestamp duration_ms =
    untyped record { timestamp = timestamp; duration_ms = duration_ms; query_text = [] }

unfoldable pub into_text_builder : UntypedPlanBuilder → TextPlanBuilder
into_text_builder b = record {
  timestamp = b.timestamp;
  duration_ms = b.duration_ms;
  query_text = b.query_text;
  content_lines = [];
}

unfoldable pub into_json_builder : UntypedPlanBuilder → JsonPlanBuilder
into_json_builder b = record {
  timestamp = b.timestamp;
  duration_ms = b.duration_ms;
  query_text = b.query_text;
  json_content = [];
  depth = pos 0;
  in_string = false;
  escape_next = false;
  started = false;
}

unfoldable pub convert_to_text : QueryPlanBuilder → QueryPlanBuilder
convert_to_text (untyped b) = text (into_text_builder b)
convert_to_text (text b) = text b
convert_to_text (json b) = json b

unfoldable pub convert_to_json : QueryPlanBuilder → QueryPlanBuilder
convert_to_json (untyped b) = json (into_json_builder b)
convert_to_json (text b) = text b
convert_to_json (json b) = json b

unfoldable pub set_query_text : QueryPlanBuilder → Text → QueryPlanBuilder
set_query_text (untyped b) query_text = untyped (record b { query_text = query_text })
set_query_text (text b) query_text = text (record b { query_text = query_text })
set_query_text (json b) query_text = json (record b { query_text = query_text })

-- A line below a text, with a newline unless it is the first.
abbrev pub append_line : Text → Text → Text
append_line [] line = line
append_line (c ∷ cs) line = (c ∷ cs) ++ (newline ∷ line)

unfoldable pub append_query_line : QueryPlanBuilder → Text → QueryPlanBuilder
append_query_line (untyped b) line =
    untyped (record b { query_text = append_line b.query_text line })
append_query_line (text b) line = text (record b { query_text = append_line b.query_text line })
append_query_line (json b) line = json (record b { query_text = append_line b.query_text line })

-- `TextPlanBuilder::add_line`, which completes no plan and fails never.
pub data Added : Type 0 where
  added : TextPlanBuilder → Option QueryPlan → Added
  add_failed : Added

unfoldable pub add_text_line : TextPlanBuilder → Text → Added
add_text_line b line = added (record b { content_lines = b.content_lines ++ (line ∷ []) }) none

-- `content_lines.join("\n")`
abbrev pub join_lines : List Text → Text
join_lines [] = []
join_lines (line ∷ []) = line
join_lines (line ∷ next ∷ lines) = line ++ (newline ∷ join_lines (next ∷ lines))

-- The plan without a database.
abbrev pub plan_of : ℕ → ℕ → Text → Bytes → QueryPlan
plan_of timestamp duration_ms query_text plan = record {
  timestamp = timestamp;
  duration_ms = duration_ms;
  query_text = query_text;
  database = none;
  plan = plan;
}

abbrev pub opens : ℕ → Bool
opens c = c == b'[' || c == b'{'

abbrev pub closes : ℕ → Bool
closes c = c == b']' || c == b'}'

-- One round of the loop of `scan_completion`.
unfoldable pub scan_char : JsonPlanBuilder → ℕ → JsonPlanBuilder
scan_char b c =
    if b.in_string
    then (if b.escape_next
        then record b { escape_next = false }
        else if c == b'\\'
        then record b { escape_next = true }
        else if c == b'"'
        then record b { in_string = false }
        else b)
    else if c == b'"'
    then record b { in_string = true }
    else if opens c
    then record b { depth = up b.depth; started = true }
    else if closes c
    then record b { depth = down b.depth }
    else b

unfoldable pub scan_chars : JsonPlanBuilder → Text → JsonPlanBuilder
scan_chars b [] = b
scan_chars b (c ∷ cs) = scan_chars (scan_char b c) cs

abbrev pub is_complete : JsonPlanBuilder → Bool
is_complete b = b.started && is_at_most_zero b.depth

pub data JsonLineOutcome : Type 0 where
  incomplete : JsonLineOutcome
  complete : QueryPlan → JsonLineOutcome
  not_a_plan : JsonLineOutcome

-- The text under "Query Text" when no query is known yet.
abbrev pub query_or : Text → Option Text → Text
query_or [] (some query) = query
query_or [] none = []
query_or (c ∷ cs) query = c ∷ cs

module _ (formats : Formats) where
  open formats use {Document, json_value, json_plan, text_plan}

  -- `TextPlanBuilder::finalize`
  unfoldable pub finalize_lines : TextPlanBuilder → List Text → Option QueryPlan
  finalize_lines b [] = none
  finalize_lines b (line ∷ lines) =
      and_then (text_plan (join_lines (line ∷ lines)))
        (λ plan. some (plan_of b.timestamp b.duration_ms b.query_text plan))

  abbrev pub finalize_text : TextPlanBuilder → Option QueryPlan
  finalize_text b = finalize_lines b b.content_lines

  -- `build_query_plan`: the builder, and the plan or none, an error included.
  abbrev pub document_plan : JsonPlanBuilder → Document → Option QueryPlan
  document_plan b document =
      and_then (json_plan document)
        (λ plan. some (plan_of b.timestamp b.duration_ms b.query_text plan))

  unfoldable pub build_value :
      JsonPlanBuilder → Option (Value Document) → JsonPlanBuilder × Option QueryPlan
  build_value b none = (b, none)
  build_value b (some (array none)) = (b, none)
  build_value b (some (array (some document))) = (b, document_plan b document)
  build_value b (some (object document query)) =
      let b1 = record b { query_text = query_or b.query_text query } in
      (b1, document_plan b1 document)
  build_value b (some other_value) = (b, none)

  abbrev pub build_query_plan : JsonPlanBuilder → JsonPlanBuilder × Option QueryPlan
  build_query_plan b = build_value b (json_value b.json_content)

  abbrev pub outcome_of : Option QueryPlan → JsonLineOutcome
  outcome_of none = not_a_plan
  outcome_of (some plan) = complete plan

  -- `JsonPlanBuilder::add_line`
  unfoldable pub add_json_line : JsonPlanBuilder → Text → JsonPlanBuilder × JsonLineOutcome
  add_json_line b line =
      let b1 = scan_chars (record b { json_content = append_line b.json_content line }) line in
      if is_complete b1
      then (let (b2, plan) = build_query_plan b1 in (b2, outcome_of plan))
      else (b1, incomplete)

  -- `JsonPlanBuilder::finalize`
  unfoldable pub finalize_json : JsonPlanBuilder → Option QueryPlan
  finalize_json b = if length b.json_content == 0 then none else (build_query_plan b).1

-- `str::lines`: a line ends before a newline, or before a carriage return and a newline; there is no
-- empty line behind the last newline.
abbrev pub carriage_return : ℕ
carriage_return = 13

abbrev pub is_return : ℕ → Text → Bool
is_return c [] = false
is_return c (d ∷ ds) = c == carriage_return && d == newline

abbrev pub onto_first : ℕ → List Text → List Text
onto_first c [] = (c ∷ []) ∷ []
onto_first c (line ∷ lines) = (c ∷ line) ∷ lines

unfoldable pub split_lines : Text → List Text
split_lines [] = []
split_lines (c ∷ cs) =
    let lines = split_lines cs in
    if c == newline then [] ∷ lines else if is_return c cs then lines else onto_first c lines

unfoldable pub append_lines : Text → List Text → Text
append_lines query_text [] = query_text
append_lines query_text (line ∷ lines) = append_lines (append_line query_text line) lines

-- `into_query_builder`
unfoldable pub into_query_builder : JsonPlanBuilder → UntypedPlanBuilder
into_query_builder b = record {
  timestamp = b.timestamp;
  duration_ms = b.duration_ms;
  query_text = append_lines b.query_text (split_lines b.json_content);
}
