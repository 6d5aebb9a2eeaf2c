-- ===== src/Aggregate/Ids.antt =====
-- The core ids that `aggregate_captures` (crates/pg_extension/src/aggregate.rs) keeps by normalised
-- query.
use pg_plansight.Prelude.{
  ℕ, ◌≡◌, refl, sym, ap, ◌∙◌, inl, inr, Option, none, some, List, [], ◌∷◌, ◌==◌, if◌then◌else◌,
  Bool-cases, bytes_eq, bytes_eq_sound, lookup, lookup-put, bytes_key,
}
use pg_plansight.Grouping.Plans.{Bytes, QueryPlan}
use pg_plansight.Grouping.Cache.{Hashing}
use pg_plansight.Grouping.Grouper.{new}
use pg_plansight.Log.Builders.{Formats}
use pg_plansight.Ring.Drain.{Capture}
use pg_plansight.Aggregate.Rows.{Setting}
use pg_plansight.Aggregate.Captures.{
  query_plan_from_capture, Folding, or_insert, note_id, fold_plan, fold_captures,
}

abbrev pub or_later : Option ℕ → Option ℕ → Option ℕ
or_later (some id) later = some id
or_later none later = later

or_later-none : (o : Option ℕ) → or_later o none ≡ o
or_later-none none = refl
or_later-none (some id) = refl

or_later_assoc : (a b c : Option ℕ) → or_later (or_later a b) c ≡ or_later a (or_later b c)
or_later_assoc none b c = refl
or_later_assoc (some id) b c = refl

module _ (formats : Formats) (setting : Setting) where
  open setting use {normalized_query}

  -- The id that a capture gives to a normalised query.
  abbrev pub id_under : Bytes → Option QueryPlan → ℕ → Option ℕ
  id_under key none qid = none
  id_under key (some plan) qid =
      if qid == 0 then none else if bytes_eq (normalized_query plan) key then some qid else none

  -- The first of them.
  abbrev pub first_id : Bytes → List Capture → Option ℕ
  first_id key [] = none
  first_id key (c ∷ cs) =
      or_later (id_under key (query_plan_from_capture formats c) c.query_id) (first_id key cs)

  module _ (h : Hashing) where
    or_insert-or_later :
        (key name : Bytes) (qid : ℕ) (m : List (Bytes × ℕ)) (o : Option ℕ)
        → lookup name m ≡ o
        → lookup key (or_insert formats setting h o name qid m)
          ≡ or_later (lookup key m) (if bytes_eq name key then some qid else none)
    or_insert-or_later key name qid m (some known) found = elim (Bool-cases (bytes_eq name key)) [
      | inl same ↦
          let here : lookup key m ≡ some known =
            ap (λ k. lookup k m) (sym (bytes_eq_sound name key same)) ∙ found in
          rw (same, here) refl
      | inr other ↦ rw other (sym (or_later-none (lookup key m)))
    ]
    or_insert-or_later key name qid m none found =
        lookup-put name key qid m ∙ elim (Bool-cases (bytes_eq name key)) [
          | inl same ↦
              let here : lookup key m ≡ none =
                ap (λ k. lookup k m) (sym (bytes_eq_sound name key same)) ∙ found in
              rw (same, here) refl
          | inr other ↦ rw other (sym (or_later-none (lookup key m)))
        ]

    fold_plan-id_under :
        (key : Bytes) (s : Folding) (qid : ℕ) (o : Option QueryPlan)
        → lookup key (fold_plan formats setting h s qid o).qid_by_norm
          ≡ or_later (lookup key s.qid_by_norm) (id_under key o qid)
    unfolding fold_plan note_id
    fold_plan-id_under key s qid none = sym (or_later-none (lookup key s.qid_by_norm))
    fold_plan-id_under key s qid (some plan) = elim (Bool-cases (qid == 0)) [
      | inl zero_id ↦ rw zero_id (sym (or_later-none (lookup key s.qid_by_norm)))
      | inr some_id ↦
          rw some_id (or_insert-or_later key (normalized_query plan) qid s.qid_by_norm _ refl)
    ]

    fold_captures-or_later :
        (key : Bytes) (s : Folding) (cs : List Capture)
        → lookup key (fold_captures formats setting h s cs).qid_by_norm
          ≡ or_later (lookup key s.qid_by_norm) (first_id key cs)
    unfolding fold_captures
    fold_captures-or_later key s [] = sym (or_later-none (lookup key s.qid_by_norm))
    fold_captures-or_later key s (c ∷ cs) =
        let made = query_plan_from_capture formats c in
        fold_captures-or_later key (fold_plan formats setting h s c.query_id made) cs
        ∙ ap (λ o. or_later o (first_id key cs)) (fold_plan-id_under key s c.query_id made)
        ∙ or_later_assoc (lookup key s.qid_by_norm) (id_under key made c.query_id) (first_id key cs)

    pub fold_captures-first_id :
        (cs : List Capture) (key : Bytes)
        → lookup key
            (fold_captures formats setting h
              record { qid_by_norm = []; grouper = new }
              cs).qid_by_norm
          ≡ first_id key cs
    unfolding lookup
    fold_captures-first_id cs key =
        fold_captures-or_later key record { qid_by_norm = []; grouper = new } cs
