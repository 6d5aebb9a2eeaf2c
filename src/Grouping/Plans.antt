-- ===== src/Grouping/Plans.antt =====
-- Plans, executions and the time window (crates/core/src/models.rs), and one group's running
-- aggregate (`GroupAccumulator` of crates/core/src/grouping.rs).
use pg_plansight.Prelude.{
  ℕ, ◌+◌, ◌-◌, ◌^◌, Bool, true, false, Option, none, some, List, [], ◌∷◌, ◌++◌, ltb, leb,
  if◌then◌else◌, length,
}

abbrev pub Bytes : Type 0
Bytes = List ℕ

-- A `DateTime<Utc>` is a number of nanoseconds since a fixed instant, an `f64` is its bit pattern.
-- The parsed plan (its text, lines and node tree) is only moved here, it is the text.
pub record QueryPlan : Type 0 where
  pub timestamp : ℕ
  pub duration_ms : ℕ
  pub query_text : Bytes
  pub database : Option Bytes
  pub plan : Bytes

pub record ExecutionRecord : Type 0 where
  pub timestamp : ℕ
  pub duration_ms : ℕ

pub record DateFilter : Type 0 where
  pub since : Option ℕ
  pub until : Option ℕ

abbrev pub before : Option ℕ → ℕ → Bool
before none timestamp = false
before (some since) timestamp = ltb timestamp since

abbrev pub after : Option ℕ → ℕ → Bool
after none timestamp = false
after (some until) timestamp = ltb until timestamp

-- `DateFilter::matches`.
pub matches : DateFilter → ℕ → Bool
matches filter timestamp =
    if before filter.since timestamp
    then false
    else if after filter.until timestamp
    then false
    else true

abbrev pub sign_bit : ℕ
sign_bit = 2 ^ 63

-- `f64::total_cmp` compares the bit patterns as integers, the negative ones reversed: this is the
-- pattern's place in that order, from 0 for the negative NaN with the largest payload.
abbrev pub total_rank : ℕ → ℕ
total_rank bits = if ltb bits sign_bit then sign_bit + bits else 2 ^ 64 - 1 - bits

-- `a.total_cmp(&b).is_ge()`
abbrev pub total_ge : ℕ → ℕ → Bool
total_ge a b = leb (total_rank b) (total_rank a)

pub record GroupAccumulator : Type 0 where
  pub representative : QueryPlan
  pub representative_duration : ℕ
  pub executions : List ExecutionRecord
  pub min_timestamp : ℕ
  pub max_timestamp : ℕ

abbrev pub execution : QueryPlan → ExecutionRecord
execution p = record { timestamp = p.timestamp; duration_ms = p.duration_ms }

-- `GroupAccumulator::new`.
unfoldable pub first : QueryPlan → GroupAccumulator
first plan = record {
  representative = plan;
  representative_duration = plan.duration_ms;
  executions = execution plan ∷ [];
  min_timestamp = plan.timestamp;
  max_timestamp = plan.timestamp;
}

-- `GroupAccumulator::push`.
unfoldable pub push : GroupAccumulator → QueryPlan → GroupAccumulator
push g plan =
    let slower = total_ge plan.duration_ms g.representative_duration in
    record {
      representative = if slower then plan else g.representative;
      representative_duration = if slower then plan.duration_ms else g.representative_duration;
      executions = g.executions ++ (execution plan ∷ []);
      min_timestamp =
          if ltb plan.timestamp g.min_timestamp then plan.timestamp else g.min_timestamp;
      max_timestamp =
          if ltb g.max_timestamp plan.timestamp then plan.timestamp else g.max_timestamp;
    }

-- `GroupAccumulator::merge`.
unfoldable pub merge : GroupAccumulator → GroupAccumulator → GroupAccumulator
merge g other =
    let slower = total_ge other.representative_duration g.representative_duration in
    record {
      representative = if slower then other.representative else g.representative;
      representative_duration =
          if slower then other.representative_duration else g.representative_duration;
      executions = g.executions ++ other.executions;
      min_timestamp =
          if ltb other.min_timestamp g.min_timestamp then other.min_timestamp else g.min_timestamp;
      max_timestamp =
          if ltb g.max_timestamp other.max_timestamp then other.max_timestamp else g.max_timestamp;
    }

-- What `finalize_group` keeps as it is. The statistics that it computes in floating point are
-- functions of `executions` alone and are left out.
pub record ProcessedQuery : Type 0 where
  pub representative_plan : QueryPlan
  pub count : ℕ
  pub min_timestamp : ℕ
  pub max_timestamp : ℕ
  pub executions : List ExecutionRecord

unfoldable pub finalize_group : QueryPlan → List ExecutionRecord → ℕ → ℕ → ProcessedQuery
finalize_group representative_plan executions min_timestamp max_timestamp = record {
  representative_plan = representative_plan;
  count = length executions;
  min_timestamp = min_timestamp;
  max_timestamp = max_timestamp;
  executions = executions;
}

-- `GroupAccumulator::finish`.
unfoldable pub finish : GroupAccumulator → ProcessedQuery
finish g = finalize_group g.representative g.executions g.min_timestamp g.max_timestamp
