-- ===== src/Grouping/Grouper/Merge.antt =====
-- `merge` of crates/core/src/grouping.rs: two groupers that covered consecutive plans, merged, hold
-- what one grouper that covered all of them holds.
use pg_plansight.Prelude.{
  ℕ, ◌≡◌, refl, sym, ap, ◌∙◌, inl, inr, Bool, true, false, Option, none, some, List, [], ◌∷◌,
  append_assoc, arith, ltb, leb, if◌then◌else◌, Bool-cases, if_true, if_false, bytes_eq,
  bytes_eq_sound, lookup, put, lookup-put, put-Unique, Unique, unique_nil, unique_cons, bytes_key,
}
use pg_plansight.Grouping.Plans.{
  Bytes, QueryPlan, total_rank, total_ge, execution, GroupAccumulator, first, push, merge,
}
use pg_plansight.Grouping.Grouper.{merged, merge_groups}
use pg_plansight.Grouping.Cache.{Hashing}
use pg_plansight.Grouping.Grouper.Groups.{key_of, joined, grow, grow_all}

-- Of three candidates, the later one of rank no less wins, in whichever order they are compared.
pick_assoc {ℓ} :
    {A : Type ℓ} (ra rb rq : ℕ) (a b q : A)
    → (if leb ra (if leb rb rq then rq else rb) then (if leb rb rq then q else b) else a)
      ≡ (if leb (if leb ra rb then rb else ra) rq then q else (if leb ra rb then b else a))
pick_assoc ra rb rq a b q = ground arith

total_rank_if :
    (b : Bool) (x y : ℕ)
    → total_rank (if b then x else y) ≡ (if b then total_rank x else total_rank y)
total_rank_if true x y = refl
total_rank_if false x y = refl

least_assoc :
    (a b q : ℕ)
    → (if ltb (if ltb q b then q else b) a then (if ltb q b then q else b) else a)
      ≡ (if ltb q (if ltb b a then b else a) then q else (if ltb b a then b else a))
least_assoc a b q = ground arith

greatest_assoc :
    (a b q : ℕ)
    → (if ltb a (if ltb b q then q else b) then (if ltb b q then q else b) else a)
      ≡ (if ltb (if ltb a b then b else a) q then q else (if ltb a b then b else a))
greatest_assoc a b q = ground arith

-- The same for durations.
pick_total {ℓ} :
    {A : Type ℓ} (a b q : ℕ) (x y z : A)
    → (if total_ge (if total_ge q b then q else b) a then (if total_ge q b then z else y) else x)
      ≡ (if total_ge q (if total_ge b a then b else a) then z else (if total_ge b a then y else x))
pick_total a b q x y z =
    ap (λ r. if leb (total_rank a) r then (if total_ge q b then z else y) else x)
      (total_rank_if (total_ge q b) q b)
    ∙ pick_assoc (total_rank a) (total_rank b) (total_rank q) x y z
    ∙ sym (
        ap (λ r. if leb r (total_rank q) then z else (if total_ge b a then y else x))
          (total_rank_if (total_ge b a) b a))

same_group :
    (g g' : GroupAccumulator)
    → g.representative ≡ g'.representative
    → g.representative_duration ≡ g'.representative_duration
    → g.executions ≡ g'.executions
    → g.min_timestamp ≡ g'.min_timestamp
    → g.max_timestamp ≡ g'.max_timestamp
    → g ≡ g'
same_group g g' a b c d e = λ i. record {
  representative = a i;
  representative_duration = b i;
  executions = c i;
  min_timestamp = d i;
  max_timestamp = e i;
}

-- The group of a key in the merged map.
abbrev pub after : Option GroupAccumulator → Option GroupAccumulator → Option GroupAccumulator
after o none = o
after o (some b) = some (merged o b)

merge-push : (a b : GroupAccumulator) (q : QueryPlan) → merge a (push b q) ≡ push (merge a b) q
unfolding merge push
merge-push a b q =
    same_group _ _
      (pick_total a.representative_duration b.representative_duration q.duration_ms _ _ _)
      (pick_total a.representative_duration b.representative_duration q.duration_ms _ _ _)
      (sym (append_assoc a.executions b.executions (execution q ∷ [])))
      (least_assoc a.min_timestamp b.min_timestamp q.timestamp)
      (greatest_assoc a.max_timestamp b.max_timestamp q.timestamp)

merge-first : (a : GroupAccumulator) (q : QueryPlan) → merge a (first q) ≡ push a q
unfolding merge first push
merge-first a q = refl

-- Merging commutes with adding a plan to the later group, and with starting it.
merged-joined :
    (o : Option GroupAccumulator) (b : Option GroupAccumulator) (q : QueryPlan)
    → merged o (joined b q) ≡ joined (after o b) q
merged-joined none none q = refl
merged-joined none (some b) q = refl
merged-joined (some a) none q = merge-first a q
merged-joined (some a) (some b) q = merge-push a b q

merge_groups-lookup :
    (k : Bytes) (ms ns : List (Bytes × GroupAccumulator))
    → Unique ns
    → lookup k (merge_groups ms ns) ≡ after (lookup k ms) (lookup k ns)
unfolding merge_groups lookup
merge_groups-lookup k ms [] unique_nil = refl
merge_groups-lookup k ms _ (unique_cons j g ns new u) =
    merge_groups-lookup k (put j (merged (lookup j ms) g) ms) ns u
    ∙ ap (λ o. after o (lookup k ns)) (lookup-put j k (merged (lookup j ms) g) ms)
    ∙ elim (Bool-cases (bytes_eq j k)) [
      | inl same ↦ rw (same, sym (bytes_eq_sound j k same), new) refl
      | inr other ↦ rw other refl
    ]

module _ (h : Hashing) where
  lookup-grow :
      (k : Bytes) (ms : List (Bytes × GroupAccumulator)) (p : QueryPlan)
      → lookup k (grow h ms p)
        ≡ (if bytes_eq (key_of h p) k then some (joined (lookup k ms) p) else lookup k ms)
  lookup-grow k ms p =
      lookup-put (key_of h p) k _ ms ∙ elim (Bool-cases (bytes_eq (key_of h p) k)) [
        | inl same ↦
            ap (λ j. if bytes_eq (key_of h p) k then some (joined (lookup j ms) p) else lookup k ms)
              (bytes_eq_sound _ k same)
        | inr other ↦ if_false _ _ other ∙ sym (if_false _ _ other)
      ]

  -- Adding the later plans to the later groups and merging, or to the merged groups.
  after-grow_all :
      (k : Bytes) (o : Option GroupAccumulator) (qs : List QueryPlan)
      (ms ns : List (Bytes × GroupAccumulator))
      → lookup k ms ≡ after o (lookup k ns)
      → lookup k (grow_all h ms qs) ≡ after o (lookup k (grow_all h ns qs))
  after-grow_all k o [] ms ns e = e
  after-grow_all k o (q ∷ qs) ms ns e = after-grow_all k o qs (grow h ms q) (grow h ns q) (
      lookup-grow k ms q ∙ elim (Bool-cases (bytes_eq (key_of h q) k)) [
        | inl same ↦
            if_true _ _ same
            ∙ ap (λ x. some (joined x q)) e
            ∙ ap some (sym (merged-joined o (lookup k ns) q))
            ∙ sym (ap (after o) (lookup-grow k ns q ∙ if_true _ _ same))
        | inr other ↦
            if_false _ _ other ∙ e ∙ sym (ap (after o) (lookup-grow k ns q ∙ if_false _ _ other))
      ])

  grow_all-Unique :
      (ms : List (Bytes × GroupAccumulator)) (qs : List QueryPlan)
      → Unique ms
      → Unique (grow_all h ms qs)
  grow_all-Unique ms [] u = u
  grow_all-Unique ms (q ∷ qs) u = grow_all-Unique (grow h ms q) qs (put-Unique _ _ ms u)

  pub merge_groups-grow_all :
      (k : Bytes) (ms : List (Bytes × GroupAccumulator)) (qs : List QueryPlan)
      → lookup k (merge_groups ms (grow_all h [] qs)) ≡ lookup k (grow_all h ms qs)
  unfolding lookup
  merge_groups-grow_all k ms qs =
      merge_groups-lookup k ms (grow_all h [] qs) (grow_all-Unique [] qs unique_nil)
      ∙ sym (after-grow_all k (lookup k ms) qs ms [] refl)
