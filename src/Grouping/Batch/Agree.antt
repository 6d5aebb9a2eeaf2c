-- ===== src/Grouping/Batch/Agree.antt =====
-- The batch path's groups of indices (crates/core/src/log_parser.rs) against groups of running
-- aggregates under the same keys.
use pg_plansight.Prelude.{
  ℕ, suc, ◌+◌, ◌≡◌, refl, sym, ap, ap₂, subst, ◌∙◌, inl, inr, none, some, List, [], ◌∷◌, ◌++◌,
  arith, Bool-cases, if_true, if_false, Option-cases, get_elem?, bytes_eq, bytes_eq_sound, lookup,
  put, lookup-put, bytes_key,
}
use mathlib.Core.Option.{some-injective}
use pg_plansight.Grouping.Plans.{Bytes, QueryPlan, GroupAccumulator}
use pg_plansight.Grouping.Cache.{Hashing, computed, fingerprint_for, keyed}
use pg_plansight.Grouping.Cache.Sound.{Separate, IsSound, fingerprint_for-IsSound}
use pg_plansight.Grouping.Grouper.{finalize_groups}
use pg_plansight.Grouping.Grouper.Groups.{key_of, joined, grow, grow_all}
use pg_plansight.Grouping.Grouper.Window.{Logged}
use pg_plansight.Grouping.Batch.{
  Index, or_empty, or_normalize, local_fingerprint, push_index, index_plan, index_plans,
  process_groups,
}
use pg_plansight.Grouping.Batch.Indices.{Builds, start-Builds, push-Builds, process_query_group_lem}

-- The same keys in the same order, each group of indices building the aggregate.
pub data Agrees (plans : List QueryPlan)
    : List (Bytes × GroupAccumulator) → List (Bytes × List ℕ) → Type 0 where
  agree_nil : Agrees plans [] []
  agree_cons :
      (k : Bytes) (g : GroupAccumulator) (is : List ℕ) (ms : List (Bytes × GroupAccumulator))
      (ns : List (Bytes × List ℕ))
      → Builds plans g is
      → Agrees plans ms ns
      → Agrees plans ((k, g) ∷ ms) ((k, is) ∷ ns)

module _ (plans : List QueryPlan) where
  put-Agrees :
      (k : Bytes) (g : GroupAccumulator) (is : List ℕ) (ms : List (Bytes × GroupAccumulator))
      (ns : List (Bytes × List ℕ))
      → Builds plans g is
      → Agrees plans ms ns
      → Agrees plans (put k g ms) (put k is ns)
  unfolding put
  put-Agrees k g is [] [] b agree_nil = agree_cons k g is [] [] b agree_nil
  put-Agrees k g is _ _ b (agree_cons j f js ms ns c a) = elim (Bool-cases (bytes_eq j k)) [
    | inl same ↦ rw same (agree_cons k g is ms ns b a)
    | inr other ↦ rw other (agree_cons j f js _ _ c (put-Agrees k g is ms ns b a))
  ]

  -- Adding a plan to its group keeps the two apace.
  grow-Agrees :
      (k : Bytes) (i : ℕ) (p : QueryPlan) (ms : List (Bytes × GroupAccumulator))
      (ns : List (Bytes × List ℕ))
      → get_elem? plans i ≡ some p
      → Agrees plans ms ns
      → Builds plans (joined (lookup k ms) p) (or_empty (lookup k ns) ++ (i ∷ []))
  unfolding lookup
  grow-Agrees k i p [] [] found agree_nil = start-Builds plans i p found
  grow-Agrees k i p _ _ found (agree_cons j f js ms ns c a) = elim (Bool-cases (bytes_eq j k)) [
    | inl same ↦ rw same (push-Builds plans f js i p found c)
    | inr other ↦ rw other (grow-Agrees k i p ms ns found a)
  ]

  pub process_groups-Agrees :
      (ms : List (Bytes × GroupAccumulator)) (ns : List (Bytes × List ℕ))
      → Agrees plans ms ns
      → process_groups plans ns ≡ some (finalize_groups ms)
  unfolding process_groups
  process_groups-Agrees _ _ agree_nil = refl
  process_groups-Agrees _ _ (agree_cons j f js ms ns c a) =
      rw (process_query_group_lem plans f js c, process_groups-Agrees ms ns a) refl

add_suc : (i j : ℕ) → i + suc j ≡ suc i + j
add_suc i j = omega arith

-- The two caches of the batch path answer with the fingerprints that they should.
pub record WarmIndex (h : Hashing) (Statement : Bytes → Type 0) (s : Index) : Type 0 where
  pub cached : IsSound h Statement s.cache
  pub local : (t : Bytes) → Statement t → (f : Bytes) → lookup t s.local ≡ some f → f ≡ computed h t

module _ (h : Hashing) (Statement : Bytes → Type 0) (separate : Separate h Statement) where
  abbrev Right : Index → Bytes → Bytes × Index → Type 0
  Right s t r =
      (r.0 ≡ computed h t) × WarmIndex h Statement r.1 × (r.1.query_groups ≡ s.query_groups)

  normalized :
      (s : Index) (t : Bytes)
      → Statement t
      → WarmIndex h Statement s
      → Right s t (or_normalize h s t none)
  unfolding or_normalize
  normalized s t st w =
      let (found, sound) = fingerprint_for-IsSound h Statement separate s.cache t st w.cached in
      (
        found,
        record {
          cached = sound;
          local = λ u su f hit.
              let looked = sym (lookup-put t u (fingerprint_for h s.cache t).0 s.local) ∙ hit in
              elim (Bool-cases (bytes_eq t u)) [
                | inl same ↦
                    sym (some-injective _ _ (sym (if_true _ _ same) ∙ looked))
                    ∙ found
                    ∙ ap (computed h) (bytes_eq_sound t u same)
                | inr other ↦ w.local u su f (sym (if_false _ _ other) ∙ looked)
              ];
        },
        refl,
      )

  local_fingerprint_lem :
      (s : Index) (t : Bytes)
      → Statement t
      → WarmIndex h Statement s
      → Right s t (local_fingerprint h s t)
  unfolding local_fingerprint or_normalize
  local_fingerprint_lem s t st w = elim (Option-cases (lookup t s.local)) [
    | inl missing ↦
        subst (λ o. Right s t (or_normalize h s t o)) (sym missing) (normalized s t st w)
    | inr (f, hit) ↦
        subst (λ o. Right s t (or_normalize h s t o)) (sym hit) (w.local t st f hit, w, refl)
  ]

  index_plan_lem :
      (s : Index) (i : ℕ) (p : QueryPlan)
      → Statement p.query_text
      → WarmIndex h Statement s
      → WarmIndex h Statement (index_plan h s i p)
        × ((index_plan h s i p).query_groups ≡ push_index (key_of h p) i s.query_groups)
  unfolding index_plan
  index_plan_lem s i p st w =
      let (found, warm, same) = local_fingerprint_lem s p.query_text st w in
      (
        record { cached = warm.cached; local = warm.local },
        ap₂ (λ f groups. push_index (keyed f p.database) i groups) found same,
      )

  -- The loop over the plans of a batch, from `idx` on.
  pub index_plans-Agrees :
      (plans : List QueryPlan) (s : Index) (idx : ℕ) (ps : List QueryPlan)
      (ms : List (Bytes × GroupAccumulator))
      → Logged Statement ps
      → WarmIndex h Statement s
      → ((j : ℕ) (p : QueryPlan) → get_elem? ps j ≡ some p → get_elem? plans (idx + j) ≡ some p)
      → Agrees plans ms s.query_groups
      → Agrees plans (grow_all h ms ps) (index_plans h s idx ps).query_groups
        × WarmIndex h Statement (index_plans h s idx ps)
  unfolding index_plans
  index_plans-Agrees plans s idx [] ms l w at a = (a, w)
  index_plans-Agrees plans s idx (p ∷ ps) ms l w at a =
      let (warm, grown) = index_plan_lem s idx p (l 0 p refl) w in
      let here = subst (λ k. get_elem? plans k ≡ some p) (omega arith) (at 0 p refl) in
      index_plans-Agrees plans (index_plan h s idx p) (suc idx) ps (grow h ms p) (λ i. l (suc i))
        warm
        (λ j q found. subst (λ k. get_elem? plans k ≡ some q) (add_suc idx j) (at (suc j) q found))
        (subst (Agrees plans (grow h ms p)) (sym grown) (
          put-Agrees plans (key_of h p) _ _ ms s.query_groups
            (grow-Agrees plans (key_of h p) idx p ms s.query_groups here a) a))
