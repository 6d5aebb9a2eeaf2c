-- ===== src/Grouping/Batch.antt =====
-- `get_processed_queries` of crates/core/src/log_parser.rs: the grouping of plans that are all
-- resident, by their indices.
pub mod Agree
pub mod Indices
use pg_plansight.Prelude.{
  ℕ, suc, Option, none, some, List, [], ◌∷◌, ◌++◌, ltb, if◌then◌else◌, and_then, get_elem?, lookup,
  put, bytes_key,
}
use pg_plansight.Grouping.Plans.{
  Bytes, QueryPlan, ExecutionRecord, total_ge, execution, ProcessedQuery, finalize_group,
}
use pg_plansight.Grouping.Cache.{FingerprintCache, Hashing, fingerprint_for, keyed}

-- What the loop over the plans changes: the parser's cache, the batch's own cache of texts and
-- the indices of each group.
pub record Index : Type 0 where
  pub cache : FingerprintCache
  pub local : List (Bytes × Bytes)
  pub query_groups : List (Bytes × List ℕ)

abbrev pub or_empty : Option (List ℕ) → List ℕ
or_empty none = []
or_empty (some indices) = indices

pub or_normalize : Hashing → Index → Bytes → Option Bytes → Bytes × Index
or_normalize h s query_text (some known) = (known, s)
or_normalize h s query_text none =
    let (found, c) = fingerprint_for h s.cache query_text in
    (found, record s { cache = c; local = put query_text found s.local })

pub local_fingerprint : Hashing → Index → Bytes → Bytes × Index
local_fingerprint h s query_text = or_normalize h s query_text (lookup query_text s.local)

abbrev pub push_index : Bytes → ℕ → List (Bytes × List ℕ) → List (Bytes × List ℕ)
push_index key idx groups = put key (or_empty (lookup key groups) ++ (idx ∷ [])) groups

pub index_plan : Hashing → Index → ℕ → QueryPlan → Index
index_plan h s idx plan =
    let (found, s1) = local_fingerprint h s plan.query_text in
    record s1 { query_groups = push_index (keyed found plan.database) idx s1.query_groups }

pub index_plans : Hashing → Index → ℕ → List QueryPlan → Index
index_plans h s idx [] = s
index_plans h s idx (plan ∷ plans) = index_plans h (index_plan h s idx plan) (suc idx) plans

-- The variables of the pass over one group.
pub record Pass : Type 0 where
  pub executions : List ExecutionRecord
  pub min_timestamp : ℕ
  pub max_timestamp : ℕ
  pub slowest_idx : ℕ
  pub slowest_duration : ℕ

pub start_pass : ℕ → QueryPlan → Pass
start_pass first_idx plan = record {
  executions = [];
  min_timestamp = plan.timestamp;
  max_timestamp = plan.timestamp;
  slowest_idx = first_idx;
  slowest_duration = plan.duration_ms;
}

pub pass_plan : Pass → ℕ → QueryPlan → Pass
pass_plan s i plan =
    let slower = total_ge plan.duration_ms s.slowest_duration in
    record {
      executions = s.executions ++ (execution plan ∷ []);
      min_timestamp =
          if ltb plan.timestamp s.min_timestamp then plan.timestamp else s.min_timestamp;
      max_timestamp =
          if ltb s.max_timestamp plan.timestamp then plan.timestamp else s.max_timestamp;
      slowest_idx = if slower then i else s.slowest_idx;
      slowest_duration = if slower then plan.duration_ms else s.slowest_duration;
    }

-- None where an index is out of range, which panics.
pub pass : List QueryPlan → List ℕ → Pass → Option Pass
pass plans [] s = some s
pass plans (i ∷ indices) s =
    and_then (get_elem? plans i) (λ plan. pass plans indices (pass_plan s i plan))

abbrev pub finish_pass : List QueryPlan → Pass → Option ProcessedQuery
finish_pass plans s =
    and_then (get_elem? plans s.slowest_idx)
      (λ plan. some (finalize_group plan s.executions s.min_timestamp s.max_timestamp))

-- `process_query_group`.
pub process_query_group : List QueryPlan → List ℕ → Option ProcessedQuery
process_query_group plans [] = none
process_query_group plans (first_idx ∷ indices) = and_then (get_elem? plans first_idx) (λ plan.
    and_then (pass plans (first_idx ∷ indices) (start_pass first_idx plan)) (finish_pass plans))

pub process_groups : List QueryPlan → List (Bytes × List ℕ) → Option (List (Bytes × ProcessedQuery))
process_groups plans [] = some []
process_groups plans (entry ∷ groups) =
    and_then (process_query_group plans entry.1) (λ query.
      and_then (process_groups plans groups) (λ queries. some ((entry.0, query) ∷ queries)))

-- The groups and the parser's cache after the call.
unfoldable pub get_processed_queries :
    Hashing
    → FingerprintCache
    → List QueryPlan
    → Option (List (Bytes × ProcessedQuery)) × FingerprintCache
get_processed_queries h c plans =
    let s = index_plans h (record { cache = c; local = []; query_groups = [] }) 0 plans in
    (process_groups plans s.query_groups, s.cache)
