-- ===== src/Grouping/Grouper.antt =====
-- The streaming grouper of crates/core/src/grouping.rs.
pub mod Groups
pub mod Window
pub mod Merge
pub mod Counts
use pg_plansight.Prelude.{
  ℕ, ◌+◌, Bool, true, false, ◌&&◌, ◌||◌, Option, none, some, List, [], ◌∷◌, map, ltb, leb, ◌==◌,
  if◌then◌else◌, length, lookup, put, nat_eq, bytes_key,
}
use pg_plansight.Grouping.Plans.{
  Bytes, QueryPlan, DateFilter, matches, GroupAccumulator, first, push, merge, ProcessedQuery,
  finish,
}
use pg_plansight.Grouping.Cache.{
  FingerprintCache, with_capacity, clear, Hashing, fingerprint_for, keyed,
}

abbrev pub max_fingerprint_cache_entries : ℕ
max_fingerprint_cache_entries = 100000

abbrev pub group_retention_warn_threshold : ℕ
group_retention_warn_threshold = 50000

pub record QueryGrouper : Type 0 where
  pub groups : List (Bytes × GroupAccumulator)
  pub cache : FingerprintCache
  pub last : Option (ℕ × Bytes)
  pub filter : Option DateFilter
  pub max_plans : ℕ
  pub accepted : ℕ
  pub truncated : Bool
  pub group_warn_threshold : ℕ
  pub retention_warned : Bool

-- `QueryGrouper::new`.
unfoldable pub new : QueryGrouper
new = record {
  groups = [];
  cache = with_capacity max_fingerprint_cache_entries;
  last = none;
  filter = none;
  max_plans = 0;
  accepted = 0;
  truncated = false;
  group_warn_threshold = group_retention_warn_threshold;
  retention_warned = false;
}

unfoldable pub with_filter : QueryGrouper → DateFilter → QueryGrouper
with_filter g filter = record g { filter = some filter }

unfoldable pub with_max_plans : QueryGrouper → ℕ → QueryGrouper
with_max_plans g max_plans = record g { max_plans = max_plans }

pub is_full : QueryGrouper → Bool
is_full g = ltb 0 g.max_plans && leb g.max_plans g.accepted

pub mark_truncated : QueryGrouper → QueryGrouper
mark_truncated g = record g { truncated = true }

-- `clear_fingerprint_cache`.
pub clear_fingerprint_cache : QueryGrouper → QueryGrouper
clear_fingerprint_cache g = record g { cache = clear g.cache; last = none }

-- `last`, when it remembers this hash.
abbrev pub remembered : Option (ℕ × Bytes) → ℕ → Option Bytes
remembered none hash = none
remembered (some memo) hash = if memo.0 == hash then some memo.1 else none

-- `fingerprint`, with what `last` remembers of the statement.
pub or_consult : Hashing → QueryGrouper → Bytes → Option Bytes → Bytes × QueryGrouper
or_consult h g query_text (some known) = (known, g)
or_consult h g query_text none =
    let (found, c) = fingerprint_for h g.cache query_text in
    (found, record g { cache = c; last = some (h.query_hash query_text, found) })

pub fingerprint : Hashing → QueryGrouper → Bytes → Bytes × QueryGrouper
fingerprint h g query_text = or_consult h g query_text (remembered g.last (h.query_hash query_text))

-- The log line is not modelled, the flag is.
pub warn_if_high_cardinality : QueryGrouper → QueryGrouper
warn_if_high_cardinality g =
    if g.retention_warned || ltb (length g.groups) g.group_warn_threshold
    then g
    else record g { retention_warned = true }

pub grow_group : QueryGrouper → Bytes → QueryPlan → Option GroupAccumulator → QueryGrouper
grow_group g key plan (some group) = record g { groups = put key (push group plan) g.groups }
grow_group g key plan none =
    warn_if_high_cardinality (record g { groups = put key (first plan) g.groups })

pub add_to_group : QueryGrouper → Bytes → QueryPlan → QueryGrouper
add_to_group g key plan = grow_group g key plan (lookup key g.groups)

-- The rest of `fold`, once the plan is accepted. A `usize` counter of plans does not overflow.
pub accept : Hashing → QueryGrouper → QueryPlan → QueryGrouper
accept h g plan =
    let (found, g1) = fingerprint h (record g { accepted = g.accepted + 1 }) plan.query_text in
    add_to_group g1 (keyed found plan.database) plan

abbrev pub in_window : Option DateFilter → ℕ → Bool
in_window none timestamp = true
in_window (some filter) timestamp = matches filter timestamp

-- `fold`: false when the plan is dropped.
pub fold : Hashing → QueryGrouper → QueryPlan → Bool × QueryGrouper
fold h g plan =
    if in_window g.filter plan.timestamp
    then (if is_full g then (false, record g { truncated = true }) else (true, accept h g plan))
    else (false, g)

unfoldable pub fold_all : Hashing → QueryGrouper → List QueryPlan → QueryGrouper
fold_all h g [] = g
fold_all h g (plan ∷ plans) = fold_all h (fold h g plan).1 plans

-- The loop of `merge`.
abbrev pub merged : Option GroupAccumulator → GroupAccumulator → GroupAccumulator
merged (some existing) group = merge existing group
merged none group = group

pub merge_groups :
    List (Bytes × GroupAccumulator)
    → List (Bytes × GroupAccumulator)
    → List (Bytes × GroupAccumulator)
merge_groups groups [] = groups
merge_groups groups (entry ∷ others) =
    merge_groups (put entry.0 (merged (lookup entry.0 groups) entry.1) groups) others

-- `QueryGrouper::merge`.
unfoldable pub merge_with : QueryGrouper → QueryGrouper → QueryGrouper
merge_with g other =
    let g1 = record g {
      accepted = g.accepted + other.accepted;
      truncated = g.truncated || other.truncated;
      groups = merge_groups g.groups other.groups;
    } in
    record (warn_if_high_cardinality g1) { last = none }

-- `finalize_groups`.
abbrev pub finalize_groups : List (Bytes × GroupAccumulator) → List (Bytes × ProcessedQuery)
finalize_groups = map (λ entry. (entry.0, finish entry.1))

unfoldable pub take_groups : QueryGrouper → List (Bytes × ProcessedQuery) × QueryGrouper
take_groups g = (
  finalize_groups g.groups,
  record g { groups = []; accepted = 0; truncated = false; last = none },
)
