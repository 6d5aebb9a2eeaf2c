-- ===== src/Grouping/Batch/Indices.antt =====
-- The pass over one group of indices (`process_query_group` of crates/core/src/log_parser.rs)
-- against the running aggregate of the streaming path.
use pg_plansight.Prelude.{
  ℕ, ◌≡◌, refl, ap, ◌∙◌, inl, inr, true, false, some, List, [], ◌∷◌, ◌++◌, arith, ltb,
  if◌then◌else◌, le→leb, and_then, Bool-cases, Option-cases, get_elem?,
}
use pg_plansight.Grouping.Plans.{
  QueryPlan, total_ge, execution, GroupAccumulator, first, push, finish,
}
use pg_plansight.Grouping.Batch.{
  Pass, start_pass, pass_plan, pass, finish_pass, process_query_group,
}

-- The pass's variables hold what the aggregate holds, the slowest plan by its index.
pub record Mirrors (plans : List QueryPlan) (g : GroupAccumulator) (s : Pass) : Type 0 where
  pub executions : s.executions ≡ g.executions
  pub min_timestamp : s.min_timestamp ≡ g.min_timestamp
  pub max_timestamp : s.max_timestamp ≡ g.max_timestamp
  pub slowest : get_elem? plans s.slowest_idx ≡ some g.representative
  pub slowest_duration : s.slowest_duration ≡ g.representative_duration

-- A pass over `indices` builds the aggregate.
pub record Builds (plans : List QueryPlan) (g : GroupAccumulator) (indices : List ℕ) : Type 0 where
  pub i : ℕ
  pub rest : List ℕ
  pub p : QueryPlan
  pub s : Pass
  pub indexed : indices ≡ i ∷ rest
  pub here : get_elem? plans i ≡ some p
  pub passed : pass plans (i ∷ rest) (start_pass i p) ≡ some s
  pub mirrors : Mirrors plans g s

total_ge_refl : (d : ℕ) → total_ge d d ≡ true
total_ge_refl d = le→leb _ _ (omega arith)

ltb_irrefl : (t : ℕ) → ltb t t ≡ false
ltb_irrefl t = ground arith

pass-append :
    (plans : List QueryPlan) (is js : List ℕ) (s : Pass)
    → pass plans (is ++ js) s ≡ and_then (pass plans is s) (pass plans js)
unfolding pass
pass-append plans [] js s = refl
pass-append plans (i ∷ is) js s = elim (Option-cases (get_elem? plans i)) [
  | inl out ↦ rw out refl
  | inr (p, found) ↦ rw found (pass-append plans is js (pass_plan s i p))
]

pub start-Builds :
    (plans : List QueryPlan) (i : ℕ) (p : QueryPlan)
    → get_elem? plans i ≡ some p
    → Builds plans (first p) (i ∷ [])
unfolding pass start_pass pass_plan first
start-Builds plans i p found = record {
  i = i;
  rest = [];
  p = p;
  s = pass_plan (start_pass i p) i p;
  indexed = refl;
  here = found;
  passed = rw found refl;
  mirrors = record {
    executions = refl;
    min_timestamp = rw (ltb_irrefl p.timestamp) refl;
    max_timestamp = rw (ltb_irrefl p.timestamp) refl;
    slowest = rw (total_ge_refl p.duration_ms) found;
    slowest_duration = rw (total_ge_refl p.duration_ms) refl;
  };
}

pass_plan-Mirrors :
    (plans : List QueryPlan) (g : GroupAccumulator) (s : Pass) (i : ℕ) (p : QueryPlan)
    → get_elem? plans i ≡ some p
    → Mirrors plans g s
    → Mirrors plans (push g p) (pass_plan s i p)
unfolding pass_plan push
pass_plan-Mirrors plans g s i p found m = record {
  executions = ap (λ es. es ++ (execution p ∷ [])) m.executions;
  min_timestamp = ap (λ t. if ltb p.timestamp t then p.timestamp else t) m.min_timestamp;
  max_timestamp = ap (λ t. if ltb t p.timestamp then p.timestamp else t) m.max_timestamp;
  slowest =
      rw m.slowest_duration (elim (Bool-cases (total_ge p.duration_ms g.representative_duration)) [
        | inl slower ↦ rw slower found
        | inr faster ↦ rw faster m.slowest
      ]);
  slowest_duration =
      ap (λ d. if total_ge p.duration_ms d then p.duration_ms else d) m.slowest_duration;
}

pass_one :
    (plans : List QueryPlan) (i : ℕ) (p : QueryPlan) (s : Pass)
    → get_elem? plans i ≡ some p
    → pass plans (i ∷ []) s ≡ some (pass_plan s i p)
unfolding pass
pass_one plans i p s found = rw found refl

pub push-Builds :
    (plans : List QueryPlan) (g : GroupAccumulator) (indices : List ℕ) (i : ℕ) (p : QueryPlan)
    → get_elem? plans i ≡ some p
    → Builds plans g indices
    → Builds plans (push g p) (indices ++ (i ∷ []))
push-Builds plans g indices i p found b = record {
  i = b.i;
  rest = b.rest ++ (i ∷ []);
  p = b.p;
  s = pass_plan b.s i p;
  indexed = ap (λ is. is ++ (i ∷ [])) b.indexed;
  here = b.here;
  passed =
      pass-append plans (b.i ∷ b.rest) (i ∷ []) (start_pass b.i b.p)
      ∙ ap (λ o. and_then o (pass plans (i ∷ []))) b.passed
      ∙ pass_one plans i p b.s found;
  mirrors = pass_plan-Mirrors plans g b.s i p found b.mirrors;
}

finish_pass-finish :
    (plans : List QueryPlan) (g : GroupAccumulator) (s : Pass)
    → Mirrors plans g s
    → finish_pass plans s ≡ some (finish g)
unfolding finish
finish_pass-finish plans g s m = rw (m.slowest, m.executions, m.min_timestamp, m.max_timestamp) refl

-- The pass over a group's indices never panics and gives what the aggregate is finished to.
pub process_query_group_lem :
    (plans : List QueryPlan) (g : GroupAccumulator) (indices : List ℕ)
    → Builds plans g indices
    → process_query_group plans indices ≡ some (finish g)
unfolding process_query_group
process_query_group_lem plans g indices b =
    ap (process_query_group plans) b.indexed
    ∙ ap
        (λ o.
          and_then o (λ plan.
            and_then (pass plans (b.i ∷ b.rest) (start_pass b.i plan)) (finish_pass plans)))
        b.here
    ∙ ap (λ o. and_then o (finish_pass plans)) b.passed
    ∙ finish_pass-finish plans g b.s b.mirrors
