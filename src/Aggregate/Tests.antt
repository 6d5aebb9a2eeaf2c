-- ===== src/Aggregate/Tests.antt =====
-- Rows of a few captures (crates/pg_extension/src/aggregate.rs).
use pg_plansight.Prelude.{
  ℕ, ◌+◌, ◌-◌, ◌≡◌, refl, ap, Bool, true, ◌||◌, not, none, some, List, [], ◌∷◌, ltb, if◌then◌else◌,
  length,
}
use pg_plansight.Grouping.Plans.{Bytes, QueryPlan, GroupAccumulator, first, push, finish}
use pg_plansight.Grouping.Cache.{Hashing, or_hash}
use pg_plansight.Grouping.Cache.Sound.{Separate}
use pg_plansight.Log.Builders.{Formats}
use pg_plansight.Ring.{Ring, Push, fresh, push_rec}
use pg_plansight.Ring.Inv.{IsValid, fresh-IsValid, push_rec-IsValid}
use pg_plansight.Ring.Refine.{pending}
use pg_plansight.Ring.Drain.{Capture, own}
use pg_plansight.Aggregate.Latency.{position, latency_bucket_index}
use pg_plansight.Aggregate.Rows.{StatRow, Setting, increment, build_stat_row}
use pg_plansight.Aggregate.Sound.{IsBalanced}
use pg_plansight.Aggregate.Balance.{build_stat_row-IsBalanced}
use pg_plansight.Aggregate.Worker.{drain_hook_ring, AreComplete, drain_hook_ring_lem}

-- Durations are given in seconds, and the plan text is the plan.
abbrev plain : Setting
plain = record {
  f64_div = λ a b. a;
  f64_add = λ a b. a + b;
  f64_mul = λ a b. a;
  f64_sum = λ ns. 0;
  epoch_secs = λ instant. instant;
  normalized_query = λ plan. plan.query_text;
  fingerprint = λ text. text;
  statistics = λ executions. record {
    total_duration_ms = 0;
    min_duration_ms = 0;
    max_duration_ms = 0;
    hourly_histogram = [];
  };
  analyze_complexity = λ plan. none;
  extract_metadata = λ plan. none;
  run_plan_analysis = λ plan. none;
}

abbrev readable : Formats
readable = record {
  Document = ℕ;
  json_value = λ content. none;
  json_plan = λ document. none;
  text_plan = λ content. some content;
  is_plan_line = λ line. true;
  split_log_line = λ line. none;
  parse_duration = λ message. none;
  parse_timestamp = λ stamp. none;
  database = λ message. none;
}

abbrev hashing : Hashing
hashing = record { query_hash = length; normalized = λ text. none }

one_second : latency_bucket_index (λ a b. a) 0x3ff0000000000000 ≡ 3
unfolding latency_bucket_index position
one_second = refl

more_than_any_bound : latency_bucket_index (λ a b. a) 0x4082c00000000000 ≡ 9
unfolding latency_bucket_index position
more_than_any_bound = refl

not_a_number : latency_bucket_index (λ a b. a) 0x7ff8000000000000 ≡ 9
unfolding latency_bucket_index position
not_a_number = refl

increment_out_of_bounds : increment (0 ∷ 0 ∷ []) 2 ≡ none
unfolding increment
increment_out_of_bounds = refl

abbrev quick : QueryPlan
quick = record {
  timestamp = 61000000000;
  duration_ms = 0x3f50624dd2f1a9fc;
  query_text = 83 ∷ [];
  database = none;
  plan = [];
}

abbrev slow : QueryPlan
slow = record quick { timestamp = 121000000000; duration_ms = 0x4082c00000000000 }

abbrev group : GroupAccumulator
group = push (first quick) slow

build_stat_row_example :
    (row : StatRow) × (build_stat_row plain (finish group) [] 0x3ff0000000000000 ≡ some row)
    × IsBalanced row
    × (row.calls ≡ length group.executions)
build_stat_row_example = build_stat_row-IsBalanced plain group [] 0x3ff0000000000000

abbrev own_push : Push
own_push = record {
  epoch_secs = 0;
  duration_ms = 0x3ff0000000000000;
  query_id = 42;
  db_oid = 5;
  sql = 0x73 ∷ 0x31 ∷ [];
  plan = 0x53 ∷ [];
}

abbrev three_pushed : Ring
three_pushed =
    push_rec (push_rec (push_rec fresh own_push) (record own_push { db_oid = 6 })) own_push

three_pushed-IsValid : IsValid three_pushed
three_pushed-IsValid =
    push_rec-IsValid own_push
      (push_rec-IsValid (record own_push { db_oid = 6 }) (push_rec-IsValid own_push fresh-IsValid))

abbrev Any : Bytes → Type 0
Any text = text ≡ text

separate : Separate hashing Any
separate a b sa sb e = ap (λ n. or_hash none n) e

-- The analysers fail on a batch that is too large.
abbrev too_many : List Capture → Bool
too_many captures = ltb 5 (length captures)

drain_hook_ring_example :
    let (round, last, ring') =
      drain_hook_ring
        (λ t. t)
        (λ bytes. bytes)
        readable
        plain
        hashing
        too_many
        three_pushed
        0
        5
        9
        0
        true in
    let mine = own (λ t. t) (λ bytes. bytes) 5 (pending three_pushed) in
    (rows : List StatRow) × AreComplete readable plain hashing mine 0 rows
    × (round.persisted ≡ (if too_many mine || not true then [] else rows))
    × (round.foreign + length mine ≡ three_pushed.len)
    × (round.new_drops ≡ three_pushed.dropped_total - 0)
    × (last ≡ ring'.dropped_total)
    × (pending ring' ≡ [])
drain_hook_ring_example =
    drain_hook_ring_lem (λ t. t) (λ bytes. bytes) readable plain hashing too_many Any separate 0 5 9
      0 true three_pushed-IsValid (λ i p found. refl)
