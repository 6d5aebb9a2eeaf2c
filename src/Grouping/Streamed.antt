-- ===== src/Grouping/Streamed.antt =====
-- The streaming path of crates/core/src/grouping.rs against the batch path of
-- crates/core/src/log_parser.rs.
use pg_plansight.Prelude.{
  ℕ, zero, suc, ◌-◌, ◌≡◌, refl, sym, ap, ap₂, subst, ◌∙◌, inl, inr, false, ◌||◌, Option, some, List,
  [], ◌∷◌, arith, Bool-cases, if_true, if_false, get_elem?, take, lookup, bytes_key,
}
use mathlib.Core.Option.{none-ne-some, some-injective}
use pg_plansight.Grouping.Plans.{Bytes, QueryPlan, DateFilter}
use pg_plansight.Grouping.Cache.{FingerprintCache, Hashing}
use pg_plansight.Grouping.Cache.Sound.{Separate, IsSound}
use pg_plansight.Grouping.Grouper.{QueryGrouper, in_window, fold_all, finalize_groups, take_groups}
use pg_plansight.Grouping.Grouper.Groups.{grow_all, Warm}
use pg_plansight.Grouping.Grouper.Window.{inside, capped, exceeds, Logged, fold_all-Folded}
use pg_plansight.Grouping.Batch.{Index, get_processed_queries}
use pg_plansight.Grouping.Batch.Agree.{agree_nil, process_groups-Agrees, index_plans-Agrees}

take-Logged :
    (Statement : Bytes → Type 0) (n : ℕ) (ps : List QueryPlan)
    → Logged Statement ps
    → Logged Statement (take n ps)
take-Logged S zero ps l i p found = absurd (none-ne-some p found)
take-Logged S (suc n) [] l i p found = absurd (none-ne-some p found)
take-Logged S (suc n) (q ∷ ps) l zero p found = l 0 p found
take-Logged S (suc n) (q ∷ ps) l (suc i) p found = take-Logged S n ps (λ j. l (suc j)) i p found

capped-Logged :
    (Statement : Bytes → Type 0) (max accepted : ℕ) (ps : List QueryPlan)
    → Logged Statement ps
    → Logged Statement (capped max accepted ps)
capped-Logged S zero accepted ps l = l
capped-Logged S (suc n) accepted ps l = take-Logged S (suc n - accepted) ps l

cons-Logged :
    (Statement : Bytes → Type 0) (p : QueryPlan) (ps : List QueryPlan)
    → Statement p.query_text
    → Logged Statement ps
    → Logged Statement (p ∷ ps)
cons-Logged S p ps s l zero q found = subst (λ r. S r.query_text) (some-injective _ _ found) s
cons-Logged S p ps s l (suc i) q found = l i q found

inside-Logged :
    (Statement : Bytes → Type 0) (filter : Option DateFilter) (ps : List QueryPlan)
    → Logged Statement ps
    → Logged Statement (inside filter ps)
inside-Logged S filter [] l = l
inside-Logged S filter (p ∷ ps) l = elim (Bool-cases (in_window filter p.timestamp)) [
  | inl into ↦
      subst (Logged S) (sym (if_true _ _ into)) (
        cons-Logged S p (inside filter ps) (l 0 p refl)
          (inside-Logged S filter ps (λ i. l (suc i))))
  | inr out ↦ subst (Logged S) (sym (if_false _ _ out)) (inside-Logged S filter ps (λ i. l (suc i)))
]

-- A grouper between two batches of plans.
pub record Idle (h : Hashing) (Statement : Bytes → Type 0) (g : QueryGrouper) : Type 0 where
  pub empty : g.groups ≡ []
  pub none_accepted : g.accepted ≡ 0
  pub none_dropped : g.truncated ≡ false
  pub warm : Warm h Statement g

-- What is left of a batch under the window and the cap of a grouper.
abbrev pub admitted : QueryGrouper → List QueryPlan → List QueryPlan
admitted g ps = capped g.max_plans 0 (inside g.filter ps)

module _ (h : Hashing) (Statement : Bytes → Type 0) (separate : Separate h Statement) where
  batch_lem :
      (c : FingerprintCache) (ps : List QueryPlan)
      → Logged Statement ps
      → IsSound h Statement c
      → (get_processed_queries h c ps).0 ≡ some (finalize_groups (grow_all h [] ps))
  unfolding get_processed_queries lookup
  batch_lem c ps l sound =
      let start : Index = record { cache = c; local = []; query_groups = [] } in
      let (agrees, warm) =
        index_plans-Agrees h Statement separate ps start 0 ps [] l
          (record { cached = sound; local = λ t s f hit. absurd (none-ne-some f hit) })
          (λ j p found. subst (λ k. get_elem? ps k ≡ some p) (omega arith) found) agree_nil in
      process_groups-Agrees ps _ _ agrees

  -- Streaming the plans through an idle grouper, with whatever window, cap and caches, gives what
  -- the batch path gives on the plans that are inside the window, up to the cap; the batch path
  -- does not panic; and the grouper says that it dropped some exactly when there are more plans
  -- in the window than the cap allows. Statements with one hash must have one fingerprint.
  pub get_processed_queries-take_groups :
      (g : QueryGrouper) (c : FingerprintCache) (ps : List QueryPlan)
      → Logged Statement ps
      → Idle h Statement g
      → IsSound h Statement c
      → ((get_processed_queries h c (admitted g ps)).0 ≡ some (take_groups (fold_all h g ps)).0)
        × ((fold_all h g ps).truncated ≡ exceeds g.max_plans 0 (inside g.filter ps))
  unfolding take_groups
  get_processed_queries-take_groups g c ps l idle sound =
      let folded = fold_all-Folded h Statement separate g ps l idle.warm in
      let same = λ (a : ℕ). capped g.max_plans a (inside g.filter ps) in
      (
        batch_lem c (admitted g ps)
              (capped-Logged Statement g.max_plans 0 _ (inside-Logged Statement g.filter ps l))
              sound
            ∙ sym (
                ap (λ m. some (finalize_groups m))
                  (folded.groups
                    ∙ ap₂ (λ m a. grow_all h m (same a)) idle.empty idle.none_accepted)),
        folded.truncated
            ∙ ap₂ (λ b a. b || exceeds g.max_plans a (inside g.filter ps)) idle.none_dropped
                idle.none_accepted,
      )

  -- Taking the groups leaves the grouper idle.
  take_groups-Idle : (g : QueryGrouper) → Warm h Statement g → Idle h Statement (take_groups g).1
  unfolding take_groups
  take_groups-Idle g w = record {
    empty = refl;
    none_accepted = refl;
    none_dropped = refl;
    warm = record { cached = w.cached; memo = λ t s f hit. absurd (none-ne-some f hit) };
  }

  -- A second batch of plans, streamed through a grouper whose groups of a first batch were taken,
  -- gives what the batch path gives on the second batch alone, under the same window and cap.
  pub take_groups_isolates :
      (g : QueryGrouper) (c : FingerprintCache) (ps qs : List QueryPlan)
      → Logged Statement ps
      → Logged Statement qs
      → Idle h Statement g
      → IsSound h Statement c
      → (get_processed_queries h c (admitted g qs)).0
        ≡ some (take_groups (fold_all h (take_groups (fold_all h g ps)).1 qs)).0
  unfolding take_groups
  take_groups_isolates g c ps qs lp lq idle sound =
      let folded = fold_all-Folded h Statement separate g ps lp idle.warm in
      let g1 = (take_groups (fold_all h g ps)).1 in
      ap (λ m. (get_processed_queries h c m).0)
        (sym (ap₂ (λ m f. capped m 0 (inside f qs)) folded.max_plans folded.filter))
      ∙ (get_processed_queries-take_groups g1 c qs lq (take_groups-Idle _ folded.warm) sound).0
