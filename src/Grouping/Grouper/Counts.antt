-- ===== src/Grouping/Grouper/Counts.antt =====
-- How many executions the grouper of crates/core/src/grouping.rs holds.
-- keys: bytes_key
use pg_plansight.Prelude.{
  ℕ, ◌+◌, ◌≡◌, refl, ap, ◌∙◌, inl, inr, true, false, ◌&&◌, ◌||◌, Option, none, some, List, [], ◌∷◌,
  arith, ltb, leb, Bool-cases, length, length-append, lookup, put, nat_eq, bytes_key,
}
use pg_plansight.Prelude.Weights.{weight, weight_found, weight-put}
use pg_plansight.Grouping.Plans.{Bytes, QueryPlan, execution, GroupAccumulator, first, push}
use pg_plansight.Grouping.Cache.{Hashing, keyed}
use pg_plansight.Grouping.Grouper.{
  QueryGrouper, is_full, remembered, or_consult, fingerprint, warn_if_high_cardinality, grow_group,
  add_to_group, accept, in_window, fold,
}

-- The executions of all groups.
abbrev pub size_of : GroupAccumulator → ℕ
size_of group = length group.executions

abbrev pub held : List (Bytes × GroupAccumulator) → ℕ
held = weight size_of

-- What an accepted plan changes.
record Counted (g q : QueryGrouper) : Type 0 where
  pub one_more : held q.groups ≡ held g.groups + 1
  pub filter : q.filter ≡ g.filter
  pub max_plans : q.max_plans ≡ g.max_plans

grow_group-Counted :
    (g : QueryGrouper) (key : Bytes) (plan : QueryPlan) (o : Option GroupAccumulator)
    → lookup key g.groups ≡ o
    → Counted g (grow_group g key plan o)
unfolding grow_group warn_if_high_cardinality first push
grow_group-Counted g key plan (some group) found =
    let put_one = weight-put size_of key (push group plan) g.groups in
    let was = ap (weight_found size_of) found in
    record {
      one_more = omega (arith, put_one, was, length-append group.executions (execution plan ∷ []));
      filter = refl;
      max_plans = refl;
    }
grow_group-Counted g key plan none found =
    let put_one = weight-put size_of key (first plan) g.groups in
    let was = ap (weight_found size_of) found in
    elim (Bool-cases
      (g.retention_warned || ltb (length (put key (first plan) g.groups)) g.group_warn_threshold)) [
        | inl e ↦
            rw e record { one_more = omega (arith, put_one, was); filter = refl; max_plans = refl }
        | inr e ↦
            rw e record { one_more = omega (arith, put_one, was); filter = refl; max_plans = refl }
      ]

fingerprint-keeps :
    (h : Hashing) (g : QueryGrouper) (text : Bytes) (o : Option Bytes)
    → ((or_consult h g text o).1.groups ≡ g.groups)
      × ((or_consult h g text o).1.filter ≡ g.filter)
      × ((or_consult h g text o).1.max_plans ≡ g.max_plans)
unfolding or_consult
fingerprint-keeps h g text (some known) = (refl, refl, refl)
fingerprint-keeps h g text none = (refl, refl, refl)

accept-Counted : (h : Hashing) (g : QueryGrouper) (plan : QueryPlan) → Counted g (accept h g plan)
unfolding accept fingerprint add_to_group
accept-Counted h g plan =
    let g0 : QueryGrouper = record g { accepted = g.accepted + 1 } in
    let consulted =
      or_consult h g0 plan.query_text (remembered g0.last (h.query_hash plan.query_text)) in
    let (groups, filter, max_plans) =
      fingerprint-keeps h g0 plan.query_text (remembered g0.last (h.query_hash plan.query_text)) in
    let key = keyed consulted.0 plan.database in
    let grown = grow_group-Counted consulted.1 key plan (lookup key consulted.1.groups) refl in
    record {
      one_more = grown.one_more ∙ ap (λ m. held m + 1) groups;
      filter = grown.filter ∙ filter;
      max_plans = grown.max_plans ∙ max_plans;
    }

-- A grouper that takes every plan.
pub record Open (g : QueryGrouper) : Type 0 where
  pub unfiltered : g.filter ≡ none
  pub uncapped : g.max_plans ≡ 0

pub fold-Open :
    (h : Hashing) (g : QueryGrouper) (plan : QueryPlan)
    → Open g
    → (held (fold h g plan).1.groups ≡ held g.groups + 1) × Open (fold h g plan).1
unfolding fold is_full
fold-Open h g plan open_one =
    let counted = accept-Counted h g plan in
    let inside : in_window g.filter plan.timestamp ≡ true =
      ap (λ o. in_window o plan.timestamp) open_one.unfiltered in
    let room : (ltb 0 g.max_plans && leb g.max_plans g.accepted) ≡ false =
      ap (λ n. ltb 0 n && leb n g.accepted) open_one.uncapped in
    rw (inside, room)
      (
        counted.one_more,
        record {
          unfiltered = counted.filter ∙ open_one.unfiltered;
          uncapped = counted.max_plans ∙ open_one.uncapped;
        },
      )
