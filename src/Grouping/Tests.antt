-- ===== src/Grouping/Tests.antt =====
-- Plans of two statements in two databases, through the grouper and the batch path.
use pg_plansight.Prelude.{
  ℕ, ◌≤◌, ◌≡◌, refl, ap, Option, none, some, List, [], ◌∷◌, ◌++◌, arith, ltb, if◌then◌else◌, length,
  lookup, remove, nat_eq, bytes_key,
}
use mathlib.Core.Option.{none-ne-some}
use pg_plansight.Grouping.Plans.{Bytes, QueryPlan, DateFilter}
use pg_plansight.Grouping.Cache.{
  FingerprintCache, with_capacity, Hashing, computed, or_hash, fingerprint_for,
}
use pg_plansight.Grouping.Cache.Sound.{Separate, IsSound, fingerprint_for-IsSound}
use pg_plansight.Grouping.Grouper.{
  QueryGrouper, new, with_filter, with_max_plans, fold_all, take_groups, merge_with,
}
use pg_plansight.Grouping.Grouper.Window.{inside, exceeds}
use pg_plansight.Grouping.Batch.{get_processed_queries}
use pg_plansight.Grouping.Streamed.{
  Idle, admitted, get_processed_queries-take_groups, take_groups_isolates,
}
use pg_plansight.Grouping.Merged.{merge_with-fold_all}
use pg_plansight.Grouping.Cache.Bounded.{
  apply_recent, Use, ask, save, answers, recent_answers, answers-recent_answers,
}
use pg_plansight.Grouping.Cache.Size.{after_all, length-after_all}

-- A statement is hashed to its length, and only the short ones can be normalised.
abbrev by_length : ℕ → Option Bytes
by_length n = if ltb n 3 then some (n ∷ []) else none

abbrev hashing : Hashing
hashing = record { query_hash = length; normalized = λ t. by_length (length t) }

abbrev Any : Bytes → Type 0
Any t = t ≡ t

separate : Separate hashing Any
separate a b sa sb e = ap (λ n. or_hash (by_length n) n) e

abbrev select_text : Bytes
select_text = 83 ∷ 69 ∷ 76 ∷ []

abbrev update_text : Bytes
update_text = 85 ∷ 80 ∷ []

abbrev plan : ℕ → ℕ → Bytes → Option Bytes → QueryPlan
plan timestamp duration_ms query_text database = record {
  timestamp = timestamp;
  duration_ms = duration_ms;
  query_text = query_text;
  database = database;
  plan = [];
}

abbrev plans : List QueryPlan
plans =
    plan 5 20 select_text none
    ∷ plan 1 30 update_text none
    ∷ plan 6 20 select_text none
    ∷ plan 7 10 select_text (some (100 ∷ []))
    ∷ plan 8 40 update_text none
    ∷ []

abbrev more_plans : List QueryPlan
more_plans = plan 9 20 select_text none ∷ plan 9 10 update_text none ∷ []

abbrev from_two : DateFilter
from_two = record { since = some 2; until = none }

abbrev grouper : QueryGrouper
grouper = with_max_plans (with_filter new from_two) 3

abbrev cache : FingerprintCache
cache = with_capacity 2

cache-IsSound : IsSound hashing Any cache
unfolding with_capacity lookup
cache-IsSound t s e found = absurd (none-ne-some e found)

grouper-Idle : Idle hashing Any grouper
unfolding new with_filter with_max_plans with_capacity lookup
grouper-Idle = record {
  empty = refl;
  none_accepted = refl;
  none_dropped = refl;
  warm = record {
    cached = λ t s e found. absurd (none-ne-some e found);
    memo = λ t s f hit. absurd (none-ne-some f hit);
  };
}

new-Idle : Idle hashing Any new
unfolding new with_capacity lookup
new-Idle = record {
  empty = refl;
  none_accepted = refl;
  none_dropped = refl;
  warm = record {
    cached = λ t s e found. absurd (none-ne-some e found);
    memo = λ t s f hit. absurd (none-ne-some f hit);
  };
}

get_processed_queries-take_groups_example :
    ((get_processed_queries hashing cache (admitted grouper plans)).0
      ≡ some (take_groups (fold_all hashing grouper plans)).0)
    × ((fold_all hashing grouper plans).truncated
        ≡ exceeds grouper.max_plans 0 (inside grouper.filter plans))
get_processed_queries-take_groups_example =
    get_processed_queries-take_groups hashing Any separate grouper cache plans (λ i p found. refl)
      grouper-Idle cache-IsSound

take_groups_isolates_example :
    (get_processed_queries hashing cache (admitted grouper more_plans)).0
    ≡ some
        (take_groups
          (fold_all hashing (take_groups (fold_all hashing grouper plans)).1 more_plans)).0
take_groups_isolates_example =
    take_groups_isolates hashing Any separate grouper cache plans more_plans (λ i p found. refl)
      (λ i p found. refl) grouper-Idle cache-IsSound

merge_with-fold_all_example :
    lookup
      (2 ∷ [])
      (merge_with (fold_all hashing new plans) (fold_all hashing new more_plans)).groups
    ≡ lookup (2 ∷ []) (fold_all hashing new (plans ++ more_plans)).groups
unfolding new
merge_with-fold_all_example =
    merge_with-fold_all hashing Any separate new new plans more_plans (λ i p found. refl)
      (λ i p found. refl) new-Idle.warm new-Idle refl refl refl (2 ∷ [])

fingerprint_for_example :
    ((fingerprint_for hashing cache select_text).0 ≡ computed hashing select_text)
    × IsSound hashing Any (fingerprint_for hashing cache select_text).1
fingerprint_for_example =
    fingerprint_for-IsSound hashing Any separate cache select_text refl cache-IsSound

-- The third hash drops the second, since the first was asked for.
abbrev uses : List Use
uses = save 1 select_text ∷ save 2 update_text ∷ ask 1 ∷ save 3 [] ∷ ask 2 ∷ ask 1 ∷ []

recent_answers-uses :
    recent_answers 2 [] uses ≡ none ∷ none ∷ some select_text ∷ none ∷ none ∷ some select_text ∷ []
unfolding recent_answers apply_recent lookup remove
recent_answers-uses = refl

answers-recent_answers_example : answers (with_capacity 2) uses ≡ recent_answers 2 [] uses
answers-recent_answers_example = answers-recent_answers 2 uses (omega arith)

length-after_all_example : length (after_all (with_capacity 2) uses).entries ≤ 2
length-after_all_example = length-after_all 2 uses (omega arith) (omega arith)
