-- ===== src/Aggregate/Balance.antt =====
-- The loop of `build_stat_row` (crates/pg_extension/src/aggregate.rs) and the row it ends in.
-- keys: nat_eq
use pg_plansight.Prelude.{
  ℕ, ◌+◌, ◌≤◌, ◌≡◌, refl, subst, ◌∙◌, some, List, [], ◌∷◌, map, arith, length, length-map, lookup,
  put, nat_eq, bytes_key,
}
use pg_plansight.Prelude.Weights.{weight, weight-put}
use pg_plansight.Grouping.Plans.{Bytes, ExecutionRecord, GroupAccumulator, finish, finalize_group}
use pg_plansight.Aggregate.Latency.{latency_bucket_index, latency_bucket_index-within}
use pg_plansight.Aggregate.Rows.{
  WindowBucket, StatRow, Setting, count_above, count_slo_breaches, Counting, start, minute_of,
  or_insert_with, count_in, count_execution, count_executions, build_stat_row, row_of,
}
use pg_plansight.Aggregate.Sound.{
  Every, every_nil, Tallies, Tallied, IsBalanced, increment-Tallies, no_counts-Tallies, values,
  or_insert_with-Tallied, put-Tallied, weight-values, or_insert_with-calls,
}

-- The counts after so many executions.
record Counted (n : ℕ) (s : Counting) : Type 0 where
  pub buckets : Tallies n s.latency_buckets
  pub minutes : Every Tallied (values s.minutes)
  pub spread : weight (λ entry. entry.calls) s.minutes ≡ n

count_above-length : (ds : List ℕ) (threshold_ms : ℕ) → count_above ds threshold_ms ≤ length ds
unfolding count_above
count_above-length [] threshold_ms = omega arith
count_above-length (d ∷ ds) threshold_ms = ground (arith, count_above-length ds threshold_ms)

count_slo_breaches-length :
    (ds : List ℕ) (threshold_ms : ℕ) → count_slo_breaches ds threshold_ms ≤ length ds
unfolding count_slo_breaches
count_slo_breaches-length ds threshold_ms = ground (arith, count_above-length ds threshold_ms)

module _ (setting : Setting) where
  open setting use {f64_div, f64_add}

  count_in-Tallied :
      (entry : WindowBucket) (e : ExecutionRecord)
      → Tallied entry
      → (next : WindowBucket) × (count_in setting entry e ≡ some next)
        × Tallied next
        × (next.calls ≡ entry.calls + 1)
  unfolding count_in Tallied
  count_in-Tallied entry e t =
      let (counts, made, tallies) =
        increment-Tallies entry.calls entry.latency_buckets
          (latency_bucket_index f64_div e.duration_ms) t
          (latency_bucket_index-within f64_div e.duration_ms) in
      (
        record entry {
          calls = entry.calls + 1;
          total_time_ms = f64_add entry.total_time_ms e.duration_ms;
          latency_buckets = counts;
        },
        rw made refl,
        tallies,
        refl,
      )

  count_execution-Counted :
      (n : ℕ) (s : Counting) (e : ExecutionRecord)
      → Counted n s
      → (t : Counting) × (count_execution setting s e ≡ some t) × Counted (n + 1) t
  unfolding count_execution
  count_execution-Counted n s e c =
      let minute = minute_of e.timestamp in
      let found = or_insert_with (lookup minute s.minutes) minute in
      let (counts, made, tallies) =
        increment-Tallies n s.latency_buckets (latency_bucket_index f64_div e.duration_ms) c.buckets
          (latency_bucket_index-within f64_div e.duration_ms) in
      let (entry, counted, tallied, more) =
        count_in-Tallied found e (or_insert_with-Tallied minute s.minutes c.minutes) in
      let was = or_insert_with-calls (lookup minute s.minutes) minute in
      let grown = weight-put (λ entry. entry.calls) minute entry s.minutes in
      (
        record { latency_buckets = counts; minutes = put minute entry s.minutes },
        rw (made, counted) refl,
        record {
          buckets = tallies;
          minutes = put-Tallied minute entry s.minutes tallied c.minutes;
          spread = omega (arith, grown, was, more, c.spread);
        },
      )

  count_executions-Counted :
      (n : ℕ) (s : Counting) (es : List ExecutionRecord)
      → Counted n s
      → (t : Counting) × (count_executions setting s es ≡ some t) × Counted (n + length es) t
  unfolding count_executions
  count_executions-Counted n s [] c = (s, refl, subst (λ k. Counted k s) (omega arith) c)
  count_executions-Counted n s (e ∷ es) c =
      let (s1, one, c1) = count_execution-Counted n s e c in
      let (t, rest, counted) = count_executions-Counted (n + 1) s1 es c1 in
      (t, rw one rest, subst (λ k. Counted k t) (omega arith) counted)

  all_executions-Counted :
      (es : List ExecutionRecord)
      → (t : Counting) × (count_executions setting start es ≡ some t) × Counted (length es) t
  all_executions-Counted es =
      let (t, made, counted) =
        count_executions-Counted 0 start es
          record { buckets = no_counts-Tallies; minutes = every_nil; spread = refl } in
      (t, made, subst (λ k. Counted k t) (omega arith) counted)

  -- The row of a group is built without an index out of bounds, and its counts agree: the latency
  -- buckets add up to its calls, so do the calls of its minutes, the buckets of every minute to that
  -- minute's calls, and no more executions break the objective than there are. Its calls are the
  -- executions of the group.
  pub build_stat_row-IsBalanced :
      (group : GroupAccumulator) (qid_by_norm : List (Bytes × ℕ)) (slo_threshold_ms : ℕ)
      → (row : StatRow) × (build_stat_row setting (finish group) qid_by_norm slo_threshold_ms
          ≡ some row)
        × IsBalanced row
        × (row.calls ≡ length group.executions)
  unfolding build_stat_row finish finalize_group
  build_stat_row-IsBalanced group qid_by_norm slo_threshold_ms =
      let (s, made, counted) = all_executions-Counted group.executions in
      (
        row_of setting (finish group) qid_by_norm slo_threshold_ms s,
        rw made refl,
        record {
          buckets = counted.buckets;
          minutes = counted.minutes;
          spread = weight-values s.minutes ∙ counted.spread;
          breaches = omega (
            arith,
            count_slo_breaches-length (map (λ e. e.duration_ms) group.executions) slo_threshold_ms,
            length-map (λ e. e.duration_ms) group.executions,
          );
        },
        refl,
      )
