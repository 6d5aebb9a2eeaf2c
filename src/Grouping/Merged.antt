-- ===== src/Grouping/Merged.antt =====
-- Per-file groupers, merged in file order, against one sequential pass (crates/core/src/grouping.rs).
use pg_plansight.Prelude.{◌≡◌, refl, sym, ap, ap₂, ◌∙◌, List, [], ◌∷◌, ◌++◌, lookup, bytes_key}
use pg_plansight.Grouping.Plans.{Bytes, QueryPlan}
use pg_plansight.Grouping.Cache.{Hashing}
use pg_plansight.Grouping.Cache.Sound.{Separate}
use pg_plansight.Grouping.Grouper.{QueryGrouper, fold, fold_all, merge_groups, merge_with}
use pg_plansight.Grouping.Grouper.Groups.{grow_all, Warm, warn_if_high_cardinality-groups}
use pg_plansight.Grouping.Grouper.Window.{inside, capped, Logged, fold_all-Folded}
use pg_plansight.Grouping.Grouper.Merge.{merge_groups-grow_all}
use pg_plansight.Grouping.Streamed.{Idle}

fold_all-append :
    (h : Hashing) (g : QueryGrouper) (ps qs : List QueryPlan)
    → fold_all h g (ps ++ qs) ≡ fold_all h (fold_all h g ps) qs
unfolding fold_all
fold_all-append h g [] qs = refl
fold_all-append h g (p ∷ ps) qs = fold_all-append h (fold h g p).1 ps qs

merge_with-groups :
    (g g' : QueryGrouper) → (merge_with g g').groups ≡ merge_groups g.groups g'.groups
unfolding merge_with
merge_with-groups g g' = warn_if_high_cardinality-groups _

module _ (h : Hashing) (Statement : Bytes → Type 0) (separate : Separate h Statement) where
  -- Two groupers without a cap and with the same window, the first with whatever groups it holds,
  -- the second idle, that are given consecutive plans and then merged, hold under every key the
  -- group that the first grouper holds if it is given all the plans in order. Statements with one
  -- hash must have one fingerprint.
  pub merge_with-fold_all :
      (g g' : QueryGrouper) (ps qs : List QueryPlan)
      → Logged Statement ps
      → Logged Statement qs
      → Warm h Statement g
      → Idle h Statement g'
      → g.max_plans ≡ 0
      → g'.max_plans ≡ 0
      → g'.filter ≡ g.filter
      → (k : Bytes)
      → lookup k (merge_with (fold_all h g ps) (fold_all h g' qs)).groups
        ≡ lookup k (fold_all h g (ps ++ qs)).groups
  merge_with-fold_all g g' ps qs lp lq w idle no_cap no_cap' same k =
      let early = fold_all-Folded h Statement separate g ps lp w in
      let late = fold_all-Folded h Statement separate g' qs lq idle.warm in
      let mid = fold_all h g ps in
      let next = fold_all-Folded h Statement separate mid qs lq early.warm in
      ap (lookup k) (
        merge_with-groups mid (fold_all h g' qs)
        ∙ ap (merge_groups mid.groups)
            (late.groups ∙ ap₂ (grow_all h) idle.empty (all_of g' qs no_cap' same)))
      ∙ merge_groups-grow_all h k mid.groups (inside g.filter qs)
      ∙ sym (
          ap (lookup k) (
            ap (λ x. x.groups) (fold_all-append h g ps qs)
            ∙ next.groups
            ∙ ap (grow_all h mid.groups) (all_of mid qs (early.max_plans ∙ no_cap) early.filter)))
    where
      all_of :
          (x : QueryGrouper) (qs : List QueryPlan)
          → x.max_plans ≡ 0
          → x.filter ≡ g.filter
          → capped x.max_plans x.accepted (inside x.filter qs) ≡ inside g.filter qs
      all_of x qs a b = ap₂ (λ m f. capped m x.accepted (inside f qs)) a b
