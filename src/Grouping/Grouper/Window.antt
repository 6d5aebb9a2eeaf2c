-- ===== src/Grouping/Grouper/Window.antt =====
-- Folding a whole run of plans (crates/core/src/grouping.rs) under a time window and a cap.
use pg_plansight.Prelude.{
  ℕ, zero, suc, ◌+◌, ◌-◌, ◌≡◌, refl, sym, ap, ap₂, subst, ◌∙◌, inl, inr, Bool, true, false, ◌&&◌,
  ◌||◌, Option, some, List, [], ◌∷◌, arith, ltb, leb, if◌then◌else◌, Bool-cases, if_true, if_false,
  length, get_elem?, take, take_all,
}
use mathlib.Core.Bool.{true≢false, or-false, or-true}
use pg_plansight.Grouping.Plans.{Bytes, QueryPlan, DateFilter}
use pg_plansight.Grouping.Cache.{Hashing}
use pg_plansight.Grouping.Cache.Sound.{Separate}
use pg_plansight.Grouping.Grouper.{QueryGrouper, is_full, accept, in_window, fold_all}
use pg_plansight.Grouping.Grouper.Groups.{
  grow, grow_all, Warm, accept_lem, fold_drop, fold_full, fold-accept,
}

-- The plans in the time window, in order.
abbrev pub inside : Option DateFilter → List QueryPlan → List QueryPlan
inside filter [] = []
inside filter (p ∷ ps) =
    let rest = inside filter ps in if in_window filter p.timestamp then p ∷ rest else rest

-- Those that a cap leaves, after some were accepted already. A cap of 0 is none.
abbrev pub capped : ℕ → ℕ → List QueryPlan → List QueryPlan
capped zero accepted ps = ps
capped (suc n) accepted ps = take (suc n - accepted) ps

abbrev pub exceeds : ℕ → ℕ → List QueryPlan → Bool
exceeds zero accepted ps = false
exceeds (suc n) accepted ps = ltb (suc n - accepted) (length ps)

capped-nil : (max accepted : ℕ) → capped max accepted [] ≡ []
capped-nil zero accepted = refl
capped-nil (suc n) accepted = take_all (suc n - accepted) [] (omega arith)

exceeds-nil : (max accepted : ℕ) → exceeds max accepted [] ≡ false
exceeds-nil zero accepted = refl
exceeds-nil (suc n) accepted = ground arith

no_gap : (n accepted : ℕ) → (ltb 0 (suc n) && leb (suc n) accepted) ≡ true → suc n - accepted ≡ 0
no_gap n accepted e = ground arith

gap :
    (n accepted : ℕ)
    → (ltb 0 (suc n) && leb (suc n) accepted) ≡ false
    → suc n - accepted ≡ suc (suc n - (accepted + 1))
gap n accepted e = ground arith

capped_full :
    (max accepted : ℕ) (ps qs : List QueryPlan)
    → (ltb 0 max && leb max accepted) ≡ true
    → capped max accepted ps ≡ capped max accepted qs
capped_full zero accepted ps qs e = absurd (true≢false (sym e))
capped_full (suc n) accepted ps qs e = rw (no_gap n accepted e) refl

exceeds_full :
    (max accepted : ℕ) (ps : List QueryPlan) (p : QueryPlan)
    → (ltb 0 max && leb max accepted) ≡ true
    → exceeds max accepted (p ∷ ps) ≡ true
exceeds_full zero accepted ps p e = absurd (true≢false (sym e))
exceeds_full (suc n) accepted ps p e = ground (arith, no_gap n accepted e)

capped_room :
    (max accepted : ℕ) (ps : List QueryPlan) (p : QueryPlan)
    → (ltb 0 max && leb max accepted) ≡ false
    → capped max accepted (p ∷ ps) ≡ p ∷ capped max (accepted + 1) ps
capped_room zero accepted ps p e = refl
capped_room (suc n) accepted ps p e = ap (λ k. take k (p ∷ ps)) (gap n accepted e)

exceeds_room :
    (max accepted : ℕ) (ps : List QueryPlan) (p : QueryPlan)
    → (ltb 0 max && leb max accepted) ≡ false
    → exceeds max accepted (p ∷ ps) ≡ exceeds max (accepted + 1) ps
exceeds_room zero accepted ps p e = refl
exceeds_room (suc n) accepted ps p e = ground (arith, gap n accepted e)

abbrev pub Logged : (Bytes → Type 0) → List QueryPlan → Type 0
Logged Statement ps = (i : ℕ) (p : QueryPlan) → get_elem? ps i ≡ some p → Statement p.query_text

module _ (h : Hashing) (Statement : Bytes → Type 0) (separate : Separate h Statement) where
  -- What folding the plans of a window makes of a grouper.
  pub record Folded (g : QueryGrouper) (ps : List QueryPlan) (g' : QueryGrouper) : Type 0 where
    pub groups : g'.groups ≡ grow_all h g.groups (capped g.max_plans g.accepted ps)
    pub truncated : g'.truncated ≡ (g.truncated || exceeds g.max_plans g.accepted ps)
    pub filter : g'.filter ≡ g.filter
    pub max_plans : g'.max_plans ≡ g.max_plans
    pub warm : Warm h Statement g'

  Folded-full :
      (g : QueryGrouper) (ps : List QueryPlan) (p : QueryPlan)
      → is_full g ≡ true
      → (g' : QueryGrouper) → Folded (record g { truncated = true }) ps g'
      → Folded g (p ∷ ps) g'
  unfolding is_full
  Folded-full g ps p full g' f = record {
    groups =
        f.groups ∙ ap (grow_all h g.groups) (capped_full g.max_plans g.accepted ps (p ∷ ps) full);
    truncated =
        f.truncated
        ∙ sym (or-true g.truncated)
        ∙ sym (ap (◌||◌ g.truncated) (exceeds_full g.max_plans g.accepted ps p full));
    filter = f.filter;
    max_plans = f.max_plans;
    warm = f.warm;
  }

  Folded-room :
      (g : QueryGrouper) (p : QueryPlan) (ps : List QueryPlan)
      → is_full g ≡ false
      → (g1 : QueryGrouper) → g1.groups ≡ grow h g.groups p
      → g1.filter ≡ g.filter
      → g1.max_plans ≡ g.max_plans
      → g1.accepted ≡ g.accepted + 1
      → g1.truncated ≡ g.truncated
      → {g' : QueryGrouper} → Folded g1 ps g'
      → Folded g (p ∷ ps) g'
  unfolding is_full
  Folded-room g p ps room g1 grown same_filter same_max same_accepted same_truncated {g'} f =
      record {
        groups =
            f.groups
            ∙ ap₂ (grow_all h) grown (ap₂ (λ m a. capped m a ps) same_max same_accepted)
            ∙ sym (ap (grow_all h g.groups) (capped_room g.max_plans g.accepted ps p room));
        truncated =
            f.truncated
            ∙ ap₂ ◌||◌ same_truncated (
                ap₂ (λ m a. exceeds m a ps) same_max same_accepted
                ∙ sym (exceeds_room g.max_plans g.accepted ps p room));
        filter = f.filter ∙ same_filter;
        max_plans = f.max_plans ∙ same_max;
        warm = f.warm;
      }

  pub fold_all-Folded :
      (g : QueryGrouper) (ps : List QueryPlan)
      → Logged Statement ps
      → Warm h Statement g
      → Folded g (inside g.filter ps) (fold_all h g ps)
  unfolding fold_all is_full
  fold_all-Folded g [] l w = record {
    groups = rw (capped-nil g.max_plans g.accepted) refl;
    truncated = rw (exceeds-nil g.max_plans g.accepted) (sym (or-false g.truncated));
    filter = refl;
    max_plans = refl;
    warm = w;
  }
  fold_all-Folded g (p ∷ ps) l w = elim (Bool-cases (in_window g.filter p.timestamp)) [
    | inl into ↦ elim (Bool-cases (is_full g)) [
      | inl full ↦
          subst (λ r. Folded g (inside g.filter (p ∷ ps)) (fold_all h r.1 ps))
            (sym (fold_full h g p into full))
            (subst (λ qs. Folded g qs (fold_all h (record g { truncated = true }) ps))
              (sym (if_true _ _ into))
              (Folded-full g (inside g.filter ps) p full _ (
                fold_all-Folded (record g { truncated = true }) ps (λ i. l (suc i))
                  (record { cached = w.cached; memo = w.memo }))))
      | inr room ↦
          let (warm, grown, same) = accept_lem h Statement separate g p (l 0 p refl) w in
          subst (λ r. Folded g (inside g.filter (p ∷ ps)) (fold_all h r.1 ps))
            (sym (fold-accept h g p into room))
            (subst (λ qs. Folded g qs (fold_all h (accept h g p) ps)) (sym (if_true _ _ into))
              (Folded-room g p (inside g.filter ps) room _ grown same.filter same.max_plans
                same.accepted same.truncated
                (subst (λ f. Folded (accept h g p) (inside f ps) (fold_all h (accept h g p) ps))
                  same.filter (fold_all-Folded (accept h g p) ps (λ i. l (suc i)) warm))))
    ]
    | inr out ↦
        subst (λ r. Folded g (inside g.filter (p ∷ ps)) (fold_all h r.1 ps))
          (sym (fold_drop h g p out))
          (subst (λ qs. Folded g qs (fold_all h g ps)) (sym (if_false _ _ out))
            (fold_all-Folded g ps (λ i. l (suc i)) w))
  ]
