-- ===== src/Aggregate/Calls.antt =====
-- How many calls the rows of `aggregate_captures` (crates/pg_extension/src/aggregate.rs) count.
use pg_plansight.Prelude.{
  ℕ, ◌+◌, ◌≡◌, refl, ap₂, ◌∙◌, inl, inr, true, Option, none, some, List, [], ◌∷◌, map, arith, ◌==◌,
  ==→≡, Bool-cases, if_true, if_false, length,
}
use pg_plansight.Grouping.Plans.{Bytes, QueryPlan, GroupAccumulator}
use pg_plansight.Grouping.Cache.{Hashing}
use pg_plansight.Grouping.Grouper.{new, finalize_groups, take_groups}
use pg_plansight.Grouping.Grouper.Counts.{held, Open, fold-Open}
use pg_plansight.Log.Builders.{Formats}
use pg_plansight.Ring.Drain.{Capture}
use pg_plansight.Aggregate.Rows.{StatRow, Setting}
use pg_plansight.Aggregate.Sound.{Every, every_nil, every_cons, IsBalanced, sum}
use pg_plansight.Aggregate.Balance.{build_stat_row-IsBalanced}
use pg_plansight.Aggregate.Captures.{
  query_plan_from_capture, Folding, fold_plan, fold_captures, rows_of, aggregate_captures,
}

abbrev pub one_if_some {ℓ} : {A : Type ℓ} → Option A → ℕ
one_if_some none = 0
one_if_some (some a) = 1

-- The captures that a plan is made of.
abbrev pub understood : Formats → List Capture → ℕ
understood formats [] = 0
understood formats (c ∷ cs) =
    one_if_some (query_plan_from_capture formats c) + understood formats cs

abbrev pub calls_of : List StatRow → ℕ
calls_of rows = sum (map (λ row. row.calls) rows)

module _ (formats : Formats) (setting : Setting) (h : Hashing) where
  fold_plan-Open :
      (s : Folding) (qid : ℕ) (o : Option QueryPlan)
      → Open s.grouper
      → let t = fold_plan formats setting h s qid o in
        (held t.grouper.groups ≡ held s.grouper.groups + one_if_some o) × Open t.grouper
  unfolding fold_plan
  fold_plan-Open s qid none opened = (omega arith, opened)
  fold_plan-Open s qid (some plan) opened = fold-Open h s.grouper plan opened

  fold_captures-Open :
      (s : Folding) (cs : List Capture)
      → Open s.grouper
      → held (fold_captures formats setting h s cs).grouper.groups
        ≡ held s.grouper.groups + understood formats cs
  unfolding fold_captures
  fold_captures-Open s [] opened = omega arith
  fold_captures-Open s (c ∷ cs) opened =
      let (one, opened') = fold_plan-Open s c.query_id (query_plan_from_capture formats c) opened in
      let rest =
        fold_captures-Open
          (fold_plan formats setting h s c.query_id (query_plan_from_capture formats c)) cs
          opened' in
      omega (arith, one, rest)

  -- Rows that count so many calls.
  abbrev Counts : Option (List StatRow) → ℕ → Type 0
  Counts o calls =
      (rows : List StatRow) × (o ≡ some rows) × Every IsBalanced rows × (calls_of rows ≡ calls)

  rows_of-Counts :
      (qid_by_norm : List (Bytes × ℕ)) (slo_threshold_ms : ℕ)
      (groups : List (Bytes × GroupAccumulator))
      → Counts
          (rows_of formats setting h qid_by_norm slo_threshold_ms (finalize_groups groups))
          (held groups)
  unfolding rows_of
  rows_of-Counts qid_by_norm slo_threshold_ms [] = ([], refl, every_nil, refl)
  rows_of-Counts qid_by_norm slo_threshold_ms (entry ∷ groups) =
      let (row, made, balanced, calls) =
        build_stat_row-IsBalanced setting entry.1 qid_by_norm slo_threshold_ms in
      let (rows, rest, all, total) = rows_of-Counts qid_by_norm slo_threshold_ms groups in
      (row ∷ rows, rw (made, rest) refl, every_cons balanced all, ap₂ ◌+◌ calls total)

  no_groups :
      (groups : List (Bytes × GroupAccumulator)) → (length groups == 0) ≡ true → 0 ≡ held groups
  no_groups [] e = refl
  no_groups (entry ∷ groups) e = absurd (omega (arith, ==→≡ _ _ e))

  -- A batch of captures always gives its rows, the counts of every row agree, and the calls of all
  -- rows are together the captures that a plan can be made of: none is lost and none counted twice.
  pub aggregate_captures-calls :
      (captures : List Capture) (slo_threshold_ms : ℕ)
      → (rows : List StatRow) × (aggregate_captures formats setting h captures slo_threshold_ms
          ≡ some rows)
        × Every IsBalanced rows
        × (calls_of rows ≡ understood formats captures)
  unfolding aggregate_captures take_groups new
  aggregate_captures-calls captures slo_threshold_ms =
      let s = fold_captures formats setting h record { qid_by_norm = []; grouper = new } captures in
      let counted =
        fold_captures-Open record { qid_by_norm = []; grouper = new } captures
          record { unfiltered = refl; uncapped = refl } in
      elim (Bool-cases (length s.grouper.groups == 0)) [
        | inl empty ↦ (
          [],
          if_true _ _ empty,
          every_nil,
          omega (arith, no_groups s.grouper.groups empty, counted),
        )
        | inr some_groups ↦
            let (rows, made, all, total) =
              rows_of-Counts s.qid_by_norm slo_threshold_ms s.grouper.groups in
            (rows, if_false _ _ some_groups ∙ made, all, omega (arith, total, counted))
      ]
