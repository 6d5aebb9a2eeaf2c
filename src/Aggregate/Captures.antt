-- ===== src/Aggregate/Captures.antt =====
-- `aggregate_captures` of crates/pg_extension/src/aggregate.rs, with
-- `query_plan_from_capture` of crates/core/src/capture.rs.
use pg_plansight.Prelude.{
  ℕ, Option, none, some, List, [], ◌∷◌, ◌==◌, if◌then◌else◌, and_then, length, lookup, put,
  bytes_key,
}
use pg_plansight.Grouping.Plans.{Bytes, QueryPlan, ProcessedQuery}
use pg_plansight.Grouping.Cache.{Hashing}
use pg_plansight.Grouping.Grouper.{QueryGrouper, new, fold, take_groups}
use pg_plansight.Log.{trim}
use pg_plansight.Log.Builders.{Formats, TextPlanBuilder, plan_of, finalize_text, split_lines}
use pg_plansight.Ring.Drain.{Capture}
use pg_plansight.Aggregate.Rows.{StatRow, Setting, build_stat_row}

-- `plan_less_query_plan`: a plan without a text.
abbrev pub plan_less_query_plan : ℕ → ℕ → Bytes → QueryPlan
plan_less_query_plan timestamp duration_ms query_text = plan_of timestamp duration_ms query_text []

abbrev pub text_builder : Capture → TextPlanBuilder
text_builder c = record {
  timestamp = c.timestamp;
  duration_ms = c.duration_ms;
  query_text = c.query_text;
  content_lines = split_lines c.plan_text;
}

-- `query_plan_from_capture`: none for an error.
unfoldable pub query_plan_from_capture : Formats → Capture → Option QueryPlan
query_plan_from_capture formats c =
    if length (trim c.plan_text) == 0
    then some (plan_less_query_plan c.timestamp c.duration_ms c.query_text)
    else finalize_text formats (text_builder c)

-- `qid_by_norm` and `grouper` in the loop over the captures.
pub record Folding : Type 0 where
  pub qid_by_norm : List (Bytes × ℕ)
  pub grouper : QueryGrouper

module _ (formats : Formats) (setting : Setting) (h : Hashing) where
  open setting use {normalized_query}

  -- `entry(...).or_insert(qid)`
  abbrev pub or_insert : Option ℕ → Bytes → ℕ → List (Bytes × ℕ) → List (Bytes × ℕ)
  or_insert (some known) key qid m = m
  or_insert none key qid m = put key qid m

  unfoldable pub note_id : List (Bytes × ℕ) → QueryPlan → ℕ → List (Bytes × ℕ)
  note_id m plan qid =
      if qid == 0
      then m
      else or_insert (lookup (normalized_query plan) m) (normalized_query plan) qid m

  unfoldable pub fold_plan : Folding → ℕ → Option QueryPlan → Folding
  fold_plan s qid none = s
  fold_plan s qid (some plan) = record {
    qid_by_norm = note_id s.qid_by_norm plan qid;
    grouper = (fold h s.grouper plan).1;
  }

  unfoldable pub fold_captures : Folding → List Capture → Folding
  fold_captures s [] = s
  fold_captures s (c ∷ cs) =
      fold_captures (fold_plan s c.query_id (query_plan_from_capture formats c)) cs

  -- The rows of the groups: none when one of them panics.
  unfoldable pub rows_of :
      List (Bytes × ℕ) → ℕ → List (Bytes × ProcessedQuery) → Option (List StatRow)
  rows_of qid_by_norm slo_threshold_ms [] = some []
  rows_of qid_by_norm slo_threshold_ms (entry ∷ processed) =
      and_then (build_stat_row setting entry.1 qid_by_norm slo_threshold_ms) (λ row.
        and_then (rows_of qid_by_norm slo_threshold_ms processed) (λ rows. some (row ∷ rows)))

  unfoldable pub aggregate_captures : List Capture → ℕ → Option (List StatRow)
  aggregate_captures captures slo_threshold_ms =
      let s = fold_captures record { qid_by_norm = []; grouper = new } captures in
      if length s.grouper.groups == 0
      then some []
      else rows_of s.qid_by_norm slo_threshold_ms (take_groups s.grouper).0
