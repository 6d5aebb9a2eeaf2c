-- ===== src/Aggregate/Rows.antt =====
-- `count_slo_breaches` and `build_stat_row` of crates/pg_extension/src/aggregate.rs.
-- keys: nat_eq
use pg_plansight.Prelude.{
  ℕ, zero, suc, ◌+◌, ◌*◌, ◌/◌, Option, none, some, List, [], ◌∷◌, map, ◌==◌, if◌then◌else◌,
  and_then, length, lookup, put, nat_eq, bytes_key,
}
use pg_plansight.Grouping.Plans.{Bytes, QueryPlan, ExecutionRecord, ProcessedQuery}
use pg_plansight.Log.{trim}
use pg_plansight.Aggregate.Latency.{f64_le, f64_gt, latency_bucket_index}

-- An instant is a number of nanoseconds since a whole minute, and the minute is counted from there.
pub record WindowBucket : Type 0 where
  pub minute_epoch : ℕ
  pub calls : ℕ
  pub total_time_ms : ℕ
  pub latency_buckets : List ℕ

-- What a group's statistics hold for an hour.
pub record HourlyMetrics : Type 0 where
  pub count : ℕ
  pub total_duration_ms : ℕ
  pub min_duration_ms : ℕ
  pub max_duration_ms : ℕ
  pub mean_duration_ms : ℕ

pub record HistBucket : Type 0 where
  pub bucket_epoch : ℕ
  pub calls : ℕ
  pub total_time_ms : ℕ
  pub min_time_ms : ℕ
  pub max_time_ms : ℕ

-- What a row takes of `QueryGroupStatistics` that is computed in floating point; it depends on the
-- executions alone.
pub record Statistics : Type 0 where
  pub total_duration_ms : ℕ
  pub min_duration_ms : ℕ
  pub max_duration_ms : ℕ
  pub hourly_histogram : List (ℕ × HourlyMetrics)

-- An `i64` count of executions does not overflow. A JSON value is its text.
pub record StatRow : Type 0 where
  pub fingerprint : Bytes
  pub query_id : Option ℕ
  pub normalized_query : Bytes
  pub representative_sql : Bytes
  pub representative_plan : Bytes
  pub calls : ℕ
  pub total_time_ms : ℕ
  pub sum_sq_time_ms : ℕ
  pub min_time_ms : ℕ
  pub max_time_ms : ℕ
  pub slo_breaches : ℕ
  pub first_seen_epoch : ℕ
  pub last_seen_epoch : ℕ
  pub complexity : Option Bytes
  pub metadata : Option Bytes
  pub plan_analysis : Option Bytes
  pub histogram : List HistBucket
  pub database : Option Bytes
  pub latency_buckets : List ℕ
  pub window : List WindowBucket

-- Any functions: floating-point arithmetic and the seconds of an instant; the normalised query that
-- a plan carries and the hash of it as a text; the statistics of executions; and the three analyses
-- of a plan text.
pub record Setting : Type 0 where
  pub f64_div : ℕ → ℕ → ℕ
  pub f64_add : ℕ → ℕ → ℕ
  pub f64_mul : ℕ → ℕ → ℕ
  pub f64_sum : List ℕ → ℕ
  pub epoch_secs : ℕ → ℕ
  pub normalized_query : QueryPlan → Bytes
  pub fingerprint : Bytes → Bytes
  pub statistics : List ExecutionRecord → Statistics
  pub analyze_complexity : Bytes → Option Bytes
  pub extract_metadata : Bytes → Option Bytes
  pub run_plan_analysis : Bytes → Option Bytes

unfoldable pub count_above : List ℕ → ℕ → ℕ
count_above [] threshold_ms = 0
count_above (d ∷ ds) threshold_ms =
    let rest = count_above ds threshold_ms in if f64_gt d threshold_ms then rest + 1 else rest

unfoldable pub count_slo_breaches : List ℕ → ℕ → ℕ
count_slo_breaches durations_ms threshold_ms =
    if f64_le threshold_ms 0 then 0 else count_above durations_ms threshold_ms

-- `buckets[i] += 1`: none for a panic.
unfoldable pub increment : List ℕ → ℕ → Option (List ℕ)
increment [] i = none
increment (n ∷ ns) zero = some ((n + 1) ∷ ns)
increment (n ∷ ns) (suc i) = and_then (increment ns i) (λ counts. some (n ∷ counts))

abbrev pub no_counts : List ℕ
no_counts = 0 ∷ 0 ∷ 0 ∷ 0 ∷ 0 ∷ 0 ∷ 0 ∷ 0 ∷ 0 ∷ 0 ∷ []

-- `latency_buckets` and `minutes` in the loop over the executions.
pub record Counting : Type 0 where
  pub latency_buckets : List ℕ
  pub minutes : List (ℕ × WindowBucket)

abbrev pub start : Counting
start = record { latency_buckets = no_counts; minutes = [] }

-- `timestamp().div_euclid(60) * 60`
abbrev pub minute_of : ℕ → ℕ
minute_of timestamp = timestamp / 1000000000 / 60 * 60

abbrev pub or_insert_with : Option WindowBucket → ℕ → WindowBucket
or_insert_with (some entry) minute = entry
or_insert_with none minute = record {
  minute_epoch = minute;
  calls = 0;
  total_time_ms = 0;
  latency_buckets = no_counts;
}

module _ (setting : Setting) where
  open setting use {
    f64_div, f64_add, f64_mul, f64_sum, epoch_secs, normalized_query, fingerprint, statistics,
    analyze_complexity, extract_metadata, run_plan_analysis,
  }

  -- The entry of a minute with one more execution.
  unfoldable pub count_in : WindowBucket → ExecutionRecord → Option WindowBucket
  count_in entry execution =
      and_then
        (increment entry.latency_buckets (latency_bucket_index f64_div execution.duration_ms))
        (λ buckets. some record entry {
          calls = entry.calls + 1;
          total_time_ms = f64_add entry.total_time_ms execution.duration_ms;
          latency_buckets = buckets;
        })

  unfoldable pub count_execution : Counting → ExecutionRecord → Option Counting
  count_execution s execution =
      let minute = minute_of execution.timestamp in
      and_then (increment s.latency_buckets (latency_bucket_index f64_div execution.duration_ms))
        (λ buckets.
          and_then (count_in (or_insert_with (lookup minute s.minutes) minute) execution) (λ entry.
            some record { latency_buckets = buckets; minutes = put minute entry s.minutes }))

  unfoldable pub count_executions : Counting → List ExecutionRecord → Option Counting
  count_executions s [] = some s
  count_executions s (execution ∷ executions) =
      and_then (count_execution s execution) (λ t. count_executions t executions)

  abbrev pub hist_bucket : ℕ × HourlyMetrics → HistBucket
  hist_bucket entry = record {
    bucket_epoch = epoch_secs entry.0;
    calls = entry.1.count;
    total_time_ms = entry.1.total_duration_ms;
    min_time_ms = entry.1.min_duration_ms;
    max_time_ms = entry.1.max_duration_ms;
  }

  -- An analysis of the plan, none without a plan.
  abbrev pub analysis_of : (Bytes → Option Bytes) → Bytes → Option Bytes
  analysis_of analyze plan = if length (trim plan) == 0 then none else analyze plan

  abbrev pub row_of : ProcessedQuery → List (Bytes × ℕ) → ℕ → Counting → StatRow
  row_of pq qid_by_norm slo_threshold_ms s =
      let plan = pq.representative_plan in
      let stats = statistics pq.executions in
      record {
        fingerprint = fingerprint (normalized_query plan);
        query_id = lookup (normalized_query plan) qid_by_norm;
        normalized_query = normalized_query plan;
        representative_sql = plan.query_text;
        representative_plan = plan.plan;
        calls = pq.count;
        total_time_ms = stats.total_duration_ms;
        sum_sq_time_ms = f64_sum (map (λ e. f64_mul e.duration_ms e.duration_ms) pq.executions);
        min_time_ms = stats.min_duration_ms;
        max_time_ms = stats.max_duration_ms;
        slo_breaches = count_slo_breaches (map (λ e. e.duration_ms) pq.executions) slo_threshold_ms;
        first_seen_epoch = epoch_secs pq.min_timestamp;
        last_seen_epoch = epoch_secs pq.max_timestamp;
        complexity = analysis_of analyze_complexity plan.plan;
        metadata = analysis_of extract_metadata plan.plan;
        plan_analysis = analysis_of run_plan_analysis plan.plan;
        histogram = map hist_bucket stats.hourly_histogram;
        database = plan.database;
        latency_buckets = s.latency_buckets;
        window = map (λ entry. entry.1) s.minutes;
      }

  unfoldable pub build_stat_row : ProcessedQuery → List (Bytes × ℕ) → ℕ → Option StatRow
  build_stat_row pq qid_by_norm slo_threshold_ms =
      and_then (count_executions start pq.executions)
        (λ s. some (row_of pq qid_by_norm slo_threshold_ms s))
