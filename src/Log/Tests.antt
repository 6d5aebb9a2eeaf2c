-- ===== src/Log/Tests.antt =====
-- Runs of the log file parser's models (crates/core), with small stand-ins for the parsers of plans
-- and the regular expressions: a log line begins with `@`, and with `@d` when it has a duration.
use pg_plansight.Prelude.{
  ℕ, ◌≡◌, refl, ◌≢◌, Bool, true, false, Option, none, some, List, [], ◌∷◌, ◌++◌, arith, ◌==◌,
  if◌then◌else◌,
}
use mathlib.Core.Option
use pg_plansight.Scan.Plain.{codes}
use pg_plansight.Grouping.Plans.{QueryPlan}
use pg_plansight.Log.{Text, trim, trim_start, trim_end, strip_prefix}
use pg_plansight.Log.Prefix.{
  Token, literal, escape, ok, err, lone_percent, tokenize, tokenize_from, read_char, read_code,
  Regex, parse,
}
use pg_plansight.Log.Tokens.{render, tokenize-render, parse_lem}
use pg_plansight.Log.Builders.{
  Formats, convert_to_text, into_text_builder, set_query_text, new_builder, add_text_line,
  finalize_lines, plan_of,
}
use pg_plansight.Log.State.{
  no_entry, waiting_for_query, reset_with_builder, finish, finalize_plan, advance_continuation,
  advance_text, after_text, wait_for_query, looks_like_json_start,
}
use pg_plansight.Log.Reader.{
  vec_sink, is_no_entry, Reading, read_line, read_until, bound_entry, any_line, continuation_line,
  take_line, read_loop, start_reading, last_plan, parse_into_sink, process_line, dispatch_line,
  entry_line,
}
use pg_plansight.Log.Fuel.{parse_into_sink_ends}
use pg_plansight.Log.Split.{StartsEntry, joined, parse_into_sink-append}
use pg_plansight.Log.Agree.{take_line-process_line}
use pg_plansight.Log.Limit.{Starts, take_line_discards}

tokens :
    tokenize (codes "%-6p%%%q@%d")
    ≡ ok (escape b'p' true ∷ literal b'%' ∷ literal b'@' ∷ escape b'd' false ∷ [])
unfolding tokenize tokenize_from read_char read_code
tokens = refl

lone : tokenize (codes " [%p] %") ≡ err lone_percent
unfolding tokenize tokenize_from read_char read_code
lone = refl

abbrev some_tokens : List Token
some_tokens = literal b'%' ∷ escape b'p' true ∷ escape b'd' false ∷ []

tokenize-render_example : tokenize (render some_tokens) ≡ ok some_tokens
tokenize-render_example = tokenize-render some_tokens (refl, (refl, tt))

abbrev plain_regex : Regex
plain_regex = record {
  Compiled = Text;
  escape_char = λ c. c ∷ [];
  compile = λ pattern. some pattern;
  db_group = λ pattern message. some message;
}

parse_example :
    (parse plain_regex (codes "%m [%p] %d ") ≢ none)
    × ((found : List Token)
        → tokenize (codes "%m [%p] %d ") ≡ ok found
        → tokenize (render found) ≡ tokenize (codes "%m [%p] %d "))
parse_example = parse_lem plain_regex (codes "%m [%p] %d ")

abbrev split_at_sign : Text → Option (Text × Text)
split_at_sign [] = none
split_at_sign (c ∷ cs) = if c == b'@' then some (c ∷ [], cs) else none

abbrev first_is : ℕ → Text → Bool
first_is k [] = false
first_is k (c ∷ cs) = c == k

abbrev small : Formats
small = record {
  Document = ℕ;
  json_value = λ content. none;
  json_plan = λ document. none;
  text_plan = λ content. some content;
  is_plan_line = first_is b'(';
  split_log_line = split_at_sign;
  parse_duration = λ message. if first_is b'd' message then some 5 else none;
  parse_timestamp = λ stamp. some 1;
  database = λ message. none;
}

abbrev as_text : List ℕ → Text
as_text bytes = bytes

abbrev entry : List ℕ
entry = codes "@d\nQuery Text: q\n(p\n"

abbrev two_entries : List ℕ
two_entries = entry ++ codes "@d\nQuery Text: r\n(s\n@\n"

abbrev expected : List QueryPlan
expected = plan_of 1 5 (codes "q") (codes "(p") ∷ plan_of 1 5 (codes "r") (codes "(s") ∷ []

two_plans : parse_into_sink small as_text 100 100 vec_sink two_entries [] ≡ some expected
unfolding parse_into_sink read_loop read_line read_until take_line any_line bound_entry
    continuation_line reset_with_builder finish finalize_plan advance_continuation wait_for_query
    advance_text after_text add_text_line finalize_lines convert_to_text into_text_builder
    set_query_text new_builder looks_like_json_start trim trim_start trim_end strip_prefix
two_plans = refl

parse_into_sink_ends_example :
    (parse_into_sink small as_text 100 100 vec_sink two_entries [] ≢ none)
    × (Option.map (last_plan small as_text 100 100 vec_sink) (
          read_loop small as_text 100 100 vec_sink 60 two_entries
            (start_reading small as_text 100 100 vec_sink []))
        ≡ parse_into_sink small as_text 100 100 vec_sink two_entries [])
parse_into_sink_ends_example =
    parse_into_sink_ends small as_text 100 100 vec_sink two_entries [] 60 (omega arith)

starts : StartsEntry small as_text 100 100 (omega arith) entry
unfolding read_line read_until trim_end
starts = record { some_left = omega arith; parts = (codes "@", codes "d"); split = refl }

parse_into_sink-append_example :
    parse_into_sink small as_text 100 100 vec_sink (entry ++ entry) []
    ≡ joined small as_text 100 100
        (omega arith)
        (parse_into_sink small as_text 100 100 vec_sink entry [])
        (parse_into_sink small as_text 100 100 vec_sink entry [])
parse_into_sink-append_example =
    parse_into_sink-append small as_text 100 100 (omega arith) entry entry refl starts (omega arith)

abbrev begun : Reading small as_text 100 20 vec_sink
begun = record {
  parsing_state = waiting_for_query (new_builder 1 5);
  entry_bytes = 15;
  current_database = none;
  sink = [];
}

processed :
    process_line small (waiting_for_query (new_builder 1 5)) (codes "@\n") ≡ (some none, no_entry)
unfolding process_line dispatch_line entry_line finish finalize_plan trim_end
processed = refl

take_line-process_line_example :
    let q = take_line small as_text 100 20 vec_sink begun (codes "@\n") in
    (q.parsing_state ≡ no_entry) × (q.sink ≡ [])
take_line-process_line_example =
    take_line-process_line small as_text 100 20 vec_sink begun (codes "@\n") none no_entry
      (omega arith) processed

new_entry : Starts small as_text 100 20 vec_sink (codes "@d\n")
unfolding trim_end
new_entry = record {
  timestamp = codes "@";
  message = codes "d";
  duration = 5;
  instant = 1;
  split = refl;
  lasted = refl;
  dated = refl;
}

not_a_log_line : split_at_sign (trim_end (codes "(p\n")) ≡ none
unfolding trim_end
not_a_log_line = refl

take_line_discards_example :
    let after = take_line small as_text 100 20 vec_sink begun (codes "@d\n") in
    (is_no_entry after.parsing_state ≡ false)
    × ((take_line small as_text 100 20 vec_sink after (codes "(p\n")).parsing_state ≡ no_entry)
take_line_discards_example =
    take_line_discards small as_text 100 20 vec_sink begun (codes "@d\n") (codes "(p\n") refl
      (omega arith) new_entry not_a_log_line (omega arith)
