-- ===== src/Aggregate/Groups.antt =====
-- Which rows `aggregate_captures` (crates/pg_extension/src/aggregate.rs) makes: one for each group
-- of the plans of its captures.
use pg_plansight.Prelude.{
  ℕ, ◌≡◌, refl, sym, ap, subst, ◌∙◌, inl, inr, true, Option, none, some, List, [], ◌∷◌, map, arith,
  ◌==◌, ==→≡, and_then, Bool-cases, if_true, if_false, Option-cases, length, lookup, bytes_key,
}
use mathlib.Core.Option.{none-ne-some, some-injective}
use pg_plansight.Grouping.Plans.{
  Bytes, QueryPlan, GroupAccumulator, finish, finalize_group, ProcessedQuery,
}
use pg_plansight.Grouping.Cache.{Hashing, with_capacity}
use pg_plansight.Grouping.Cache.Sound.{Separate}
use pg_plansight.Grouping.Grouper.{new, fold_all, finalize_groups, take_groups}
use pg_plansight.Grouping.Grouper.Groups.{grow_all, Warm}
use pg_plansight.Grouping.Grouper.Window.{inside, Logged, fold_all-Folded}
use pg_plansight.Log.Builders.{Formats}
use pg_plansight.Ring.Drain.{Capture}
use pg_plansight.Aggregate.Rows.{
  StatRow, Setting, count_slo_breaches, Counting, start, count_executions, row_of, build_stat_row,
}
use pg_plansight.Aggregate.Sound.{IsBalanced}
use pg_plansight.Aggregate.Balance.{build_stat_row-IsBalanced}
use pg_plansight.Aggregate.Captures.{
  query_plan_from_capture, Folding, fold_plan, fold_captures, rows_of, aggregate_captures,
}
use pg_plansight.Aggregate.Ids.{first_id, fold_captures-first_id}

-- The plans that can be made of captures, in order.
abbrev pub with_plan : Option QueryPlan → List QueryPlan → List QueryPlan
with_plan none plans = plans
with_plan (some plan) plans = plan ∷ plans

abbrev pub plans_of : Formats → List Capture → List QueryPlan
plans_of formats [] = []
plans_of formats (c ∷ cs) = with_plan (query_plan_from_capture formats c) (plans_of formats cs)

inside-none : (ps : List QueryPlan) → inside none ps ≡ ps
inside-none [] = refl
inside-none (p ∷ ps) = ap (◌∷◌ p) (inside-none ps)

new-Warm : (h : Hashing) (Statement : Bytes → Type 0) → Warm h Statement new
unfolding new with_capacity lookup
new-Warm h Statement = record {
  cached = λ t s e found. absurd (none-ne-some e found);
  memo = λ t s f hit. absurd (none-ne-some f hit);
}

module _ (setting : Setting) (ids : Bytes → Option ℕ) (slo_threshold_ms : ℕ) where
  open setting use {normalized_query}

  -- A row that sums up a group.
  pub record IsRowOf (group : GroupAccumulator) (row : StatRow) : Type 0 where
    pub calls : row.calls ≡ length group.executions
    pub balanced : IsBalanced row
    pub representative_sql : row.representative_sql ≡ group.representative.query_text
    pub representative_plan : row.representative_plan ≡ group.representative.plan
    pub database : row.database ≡ group.representative.database
    pub query_id : row.query_id ≡ ids (normalized_query group.representative)
    pub slo_breaches :
        row.slo_breaches
        ≡ count_slo_breaches (map (λ e. e.duration_ms) group.executions) slo_threshold_ms

  -- One row for each group, in order.
  pub data AreRowsOf : List (Bytes × GroupAccumulator) → List StatRow → Type 0 where
    no_rows : AreRowsOf [] []
    row_and :
        {key : Bytes} {group : GroupAccumulator} {row : StatRow}
        {groups : List (Bytes × GroupAccumulator)} {rows : List StatRow}
        → IsRowOf group row
        → AreRowsOf groups rows
        → AreRowsOf ((key, group) ∷ groups) (row ∷ rows)

build_stat_row-row_of :
    (setting : Setting) (pq : ProcessedQuery) (qids : List (Bytes × ℕ)) (slo_threshold_ms : ℕ)
    (row : StatRow)
    → build_stat_row setting pq qids slo_threshold_ms ≡ some row
    → (s : Counting) × (row_of setting pq qids slo_threshold_ms s ≡ row)
unfolding build_stat_row
build_stat_row-row_of setting pq qids slo_threshold_ms row made =
    elim (Option-cases (count_executions setting start pq.executions)) [
      | inl panicked ↦ absurd (
          none-ne-some row (
            sym (
              ap (λ o. and_then o (λ s. some (row_of setting pq qids slo_threshold_ms s))) panicked)
            ∙ made))
      | inr (s, counted) ↦ (
        s,
        some-injective _ _ (
            sym
              (ap (λ o. and_then o (λ s. some (row_of setting pq qids slo_threshold_ms s))) counted)
            ∙ made),
      )
    ]

module _ (formats : Formats) (setting : Setting) (h : Hashing) where
  fold_all-fold_plan :
      (s : Folding) (qid : ℕ) (o : Option QueryPlan) (plans : List QueryPlan)
      → fold_all h (fold_plan formats setting h s qid o).grouper plans
        ≡ fold_all h s.grouper (with_plan o plans)
  unfolding fold_plan fold_all
  fold_all-fold_plan s qid none plans = refl
  fold_all-fold_plan s qid (some plan) plans = refl

  fold_captures-fold_all :
      (s : Folding) (cs : List Capture)
      → (fold_captures formats setting h s cs).grouper ≡ fold_all h s.grouper (plans_of formats cs)
  unfolding fold_captures fold_all
  fold_captures-fold_all s [] = refl
  fold_captures-fold_all s (c ∷ cs) =
      let made = query_plan_from_capture formats c in
      fold_captures-fold_all (fold_plan formats setting h s c.query_id made) cs
      ∙ fold_all-fold_plan s c.query_id made (plans_of formats cs)

  rows_of-AreRowsOf :
      (qids : List (Bytes × ℕ)) (ids : Bytes → Option ℕ)
      → ((key : Bytes) → lookup key qids ≡ ids key)
      → (slo_threshold_ms : ℕ) (groups : List (Bytes × GroupAccumulator))
      → (rows : List StatRow) × (rows_of formats setting h qids slo_threshold_ms
            (finalize_groups groups)
          ≡ some rows)
        × AreRowsOf setting ids slo_threshold_ms groups rows
  unfolding rows_of finish finalize_group
  rows_of-AreRowsOf qids ids known slo_threshold_ms [] = ([], refl, no_rows)
  rows_of-AreRowsOf qids ids known slo_threshold_ms ((key, group) ∷ groups) =
      let (row, made, balanced, calls) =
        build_stat_row-IsBalanced setting group qids slo_threshold_ms in
      let (s, same) = build_stat_row-row_of setting (finish group) qids slo_threshold_ms row made in
      let (rows, rest, all) = rows_of-AreRowsOf qids ids known slo_threshold_ms groups in
      (
        row ∷ rows,
        rw (made, rest) refl,
        row_and
            record {
              calls = calls;
              balanced = balanced;
              representative_sql = sym (ap (λ r. r.representative_sql) same);
              representative_plan = sym (ap (λ r. r.representative_plan) same);
              database = sym (ap (λ r. r.database) same);
              query_id =
                  sym (ap (λ r. r.query_id) same)
                  ∙ known (setting.normalized_query group.representative);
              slo_breaches = sym (ap (λ r. r.slo_breaches) same);
            }
            all,
      )

  empty_groups :
      (groups : List (Bytes × GroupAccumulator)) → (length groups == 0) ≡ true → groups ≡ []
  empty_groups [] e = refl
  empty_groups (entry ∷ groups) e = absurd (omega (arith, ==→≡ _ _ e))

  module _ (Statement : Bytes → Type 0) (separate : Separate h Statement) where
    -- The rows are those of the groups into which the plans of the captures fall, one after the
    -- other; the id of a row is the first one that is not 0 among its normalised query's captures.
    pub aggregate_captures-AreRowsOf :
        (captures : List Capture) (slo_threshold_ms : ℕ)
        → Logged Statement (plans_of formats captures)
        → (rows : List StatRow) × (aggregate_captures formats setting h captures slo_threshold_ms
            ≡ some rows)
          × AreRowsOf setting
              (λ key. first_id formats setting key captures)
              slo_threshold_ms
              (grow_all h [] (plans_of formats captures))
              rows
    unfolding aggregate_captures take_groups new
    aggregate_captures-AreRowsOf captures slo_threshold_ms logged =
        let begin : Folding = record { qid_by_norm = []; grouper = new } in
        let s = fold_captures formats setting h begin captures in
        let ids : Bytes → Option ℕ = λ key. first_id formats setting key captures in
        let plans = plans_of formats captures in
        let folded = fold_all-Folded h Statement separate new plans logged (new-Warm h Statement) in
        let groups : s.grouper.groups ≡ grow_all h [] plans =
          ap (λ g. g.groups) (fold_captures-fold_all begin captures)
          ∙ folded.groups
          ∙ ap (grow_all h []) (inside-none plans) in
        elim (Bool-cases (length s.grouper.groups == 0)) [
          | inl empty ↦ (
            [],
            if_true _ _ empty,
            subst (λ gs. AreRowsOf setting ids slo_threshold_ms gs [])
                (sym (empty_groups s.grouper.groups empty) ∙ groups) no_rows,
          )
          | inr some_groups ↦
              let (rows, made, all) =
                rows_of-AreRowsOf s.qid_by_norm ids
                  (fold_captures-first_id formats setting h captures) slo_threshold_ms
                  s.grouper.groups in
              (
                rows,
                if_false _ _ some_groups ∙ made,
                subst (λ gs. AreRowsOf setting ids slo_threshold_ms gs rows) groups all,
              )
        ]
