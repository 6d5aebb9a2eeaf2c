-- ===== src/Grouping/Grouper/Groups.antt =====
-- What folding plans into the grouper of crates/core/src/grouping.rs makes of its groups, counters
-- and memo.
use pg_plansight.Prelude.{
  ◌+◌, ◌≡◌, refl, sym, ap, ap₂, subst, ◌∙◌, ◌⊎◌, inl, inr, true, false, ◌||◌, Option, none, some,
  List, [], ◌∷◌, ltb, ◌==◌, if◌then◌else◌, ==→≡, Bool-cases, if_true, if_false, Option-cases,
  length, lookup, put, nat_eq, bytes_key,
}
use mathlib.Core.Option.{some-injective, none-ne-some}
use pg_plansight.Grouping.Plans.{Bytes, QueryPlan, GroupAccumulator, first, push}
use pg_plansight.Grouping.Cache.{Hashing, computed, fingerprint_for, keyed}
use pg_plansight.Grouping.Cache.Sound.{Separate, IsSound, fingerprint_for-IsSound}
use pg_plansight.Grouping.Grouper.{
  QueryGrouper, is_full, remembered, or_consult, fingerprint, warn_if_high_cardinality, grow_group,
  add_to_group, accept, in_window, fold,
}

-- The key of a plan's group, computed without the cache.
abbrev pub key_of : Hashing → QueryPlan → Bytes
key_of h p = keyed (computed h p.query_text) p.database

abbrev pub joined : Option GroupAccumulator → QueryPlan → GroupAccumulator
joined none p = first p
joined (some group) p = push group p

abbrev pub grow :
    Hashing → List (Bytes × GroupAccumulator) → QueryPlan → List (Bytes × GroupAccumulator)
grow h groups p = put (key_of h p) (joined (lookup (key_of h p) groups) p) groups

abbrev pub grow_all :
    Hashing → List (Bytes × GroupAccumulator) → List QueryPlan → List (Bytes × GroupAccumulator)
grow_all h groups [] = groups
grow_all h groups (p ∷ ps) = grow_all h (grow h groups p) ps

-- The cache and the memo answer with the fingerprints that they should.
pub record Warm (h : Hashing) (Statement : Bytes → Type 0) (g : QueryGrouper) : Type 0 where
  pub cached : IsSound h Statement g.cache
  pub memo :
      (t : Bytes)
      → Statement t
      → (f : Bytes) → remembered g.last (h.query_hash t) ≡ some f
      → f ≡ computed h t

-- `g'` is `g` but for what finding a fingerprint may change.
pub record Same (g g' : QueryGrouper) : Type 0 where
  pub groups : g'.groups ≡ g.groups
  pub filter : g'.filter ≡ g.filter
  pub max_plans : g'.max_plans ≡ g.max_plans
  pub accepted : g'.accepted ≡ g.accepted
  pub truncated : g'.truncated ≡ g.truncated

abbrev unchanged :
    (g g' : QueryGrouper)
    → g'.groups ≡ g.groups
    → g'.filter ≡ g.filter
    → g'.max_plans ≡ g.max_plans
    → g'.accepted ≡ g.accepted
    → g'.truncated ≡ g.truncated
    → Same g g'
unchanged g g' a b c d e = record {
  groups = a;
  filter = b;
  max_plans = c;
  accepted = d;
  truncated = e;
}

warned : QueryGrouper → QueryGrouper
warned g = record g { retention_warned = true }

warned_or_not :
    (g : QueryGrouper) → (warn_if_high_cardinality g ≡ g) ⊎ (warn_if_high_cardinality g ≡ warned g)
unfolding warn_if_high_cardinality warned
warned_or_not g =
    elim (Bool-cases (g.retention_warned || ltb (length g.groups) g.group_warn_threshold)) [
      | inl quiet ↦ inl (if_true _ _ quiet)
      | inr loud ↦ inr (if_false _ _ loud)
    ]

pub warn_if_high_cardinality-groups :
    (g : QueryGrouper) → (warn_if_high_cardinality g).groups ≡ g.groups
unfolding warned
warn_if_high_cardinality-groups g = elim (warned_or_not g) [
  | inl same ↦ ap (λ x. x.groups) same
  | inr same ↦ ap (λ x. x.groups) same
]

-- `g'` is `g` with other groups, and perhaps the warning given.
record Grown (g : QueryGrouper) (groups' : List (Bytes × GroupAccumulator)) (g' : QueryGrouper)
    : Type 0 where
  groups : g'.groups ≡ groups'
  filter : g'.filter ≡ g.filter
  max_plans : g'.max_plans ≡ g.max_plans
  accepted : g'.accepted ≡ g.accepted
  truncated : g'.truncated ≡ g.truncated
  cache : g'.cache ≡ g.cache
  last : g'.last ≡ g.last

grow_group_lem :
    (g : QueryGrouper) (key : Bytes) (p : QueryPlan) (o : Option GroupAccumulator)
    → Grown g (put key (joined o p) g.groups) (grow_group g key p o)
unfolding grow_group warned
grow_group_lem g key p (some group) = record {
  groups = refl;
  filter = refl;
  max_plans = refl;
  accepted = refl;
  truncated = refl;
  cache = refl;
  last = refl;
}
grow_group_lem g key p none =
    let added = record g { groups = put key (first p) g.groups } in
    elim (warned_or_not added) [
      | inl same ↦ subst (Grown g (put key (first p) g.groups)) (sym same) (record {
        groups = refl;
        filter = refl;
        max_plans = refl;
        accepted = refl;
        truncated = refl;
        cache = refl;
        last = refl;
      })
      | inr same ↦ subst (Grown g (put key (first p) g.groups)) (sym same) (record {
        groups = refl;
        filter = refl;
        max_plans = refl;
        accepted = refl;
        truncated = refl;
        cache = refl;
        last = refl;
      })
    ]

module _ (h : Hashing) (Statement : Bytes → Type 0) (separate : Separate h Statement) where
  -- What `fingerprint` returns.
  abbrev Right : QueryGrouper → Bytes → Bytes × QueryGrouper → Type 0
  Right g t r = (r.0 ≡ computed h t) × Warm h Statement r.1 × Same g r.1

  consulted :
      (g : QueryGrouper) (t : Bytes)
      → Statement t
      → Warm h Statement g
      → Right g t (or_consult h g t none)
  unfolding or_consult
  consulted g t s w =
      let (found, sound) = fingerprint_for-IsSound h Statement separate g.cache t s w.cached in
      let memo : (u : Bytes)
          → Statement u
          → (f : Bytes)
          → (if h.query_hash t == h.query_hash u
              then some (fingerprint_for h g.cache t).0
              else none)
            ≡ some f
          → f ≡ computed h u =
        λ u su f hit. elim (Bool-cases (h.query_hash t == h.query_hash u)) [
          | inl same ↦
              sym (some-injective _ _ (sym (if_true _ _ same) ∙ hit))
              ∙ found
              ∙ separate t u s su (==→≡ _ _ same)
          | inr other ↦ absurd (none-ne-some f (sym (if_false _ _ other) ∙ hit))
        ] in
      (found, record { cached = sound; memo = memo }, unchanged _ _ refl refl refl refl refl)

  fingerprint_lem :
      (g : QueryGrouper) (t : Bytes)
      → Statement t
      → Warm h Statement g
      → Right g t (fingerprint h g t)
  unfolding fingerprint or_consult
  fingerprint_lem g t s w = elim (Option-cases (remembered g.last (h.query_hash t))) [
    | inl missing ↦ subst (λ o. Right g t (or_consult h g t o)) (sym missing) (consulted g t s w)
    | inr (f, hit) ↦
        subst (λ o. Right g t (or_consult h g t o)) (sym hit)
          (w.memo t s f hit, w, unchanged _ _ refl refl refl refl refl)
  ]

  -- An accepted plan goes into the group of its key, and is counted.
  pub accept_lem :
      (g : QueryGrouper) (p : QueryPlan)
      → Statement p.query_text
      → Warm h Statement g
      → Warm h Statement (accept h g p)
        × ((accept h g p).groups ≡ grow h g.groups p)
        × Same
            (record g { accepted = g.accepted + 1; groups = (accept h g p).groups })
            (accept h g p)
  unfolding accept add_to_group
  accept_lem g p s w =
      let counted = record g { accepted = g.accepted + 1 } in
      let (right, warm, same) =
        fingerprint_lem counted p.query_text s (record { cached = w.cached; memo = w.memo }) in
      let r = fingerprint h counted p.query_text in
      let key = keyed r.0 p.database in
      let grown = grow_group_lem r.1 key p (lookup key r.1.groups) in
      (
        record {
          cached = subst (IsSound h Statement) (sym grown.cache) warm.cached;
          memo = λ u su f hit.
              warm.memo u su f (ap (λ l. remembered l (h.query_hash u)) (sym grown.last) ∙ hit);
        },
        grown.groups
            ∙ ap₂ (λ k groups. put k (joined (lookup k groups) p) groups)
                (ap (λ f. keyed f p.database) right) same.groups,
        unchanged _ _ refl (grown.filter ∙ same.filter) (grown.max_plans ∙ same.max_plans)
            (grown.accepted ∙ same.accepted) (grown.truncated ∙ same.truncated),
      )

module _ (h : Hashing) where
  -- A plan that is dropped.
  pub fold_drop :
      (g : QueryGrouper) (p : QueryPlan)
      → in_window g.filter p.timestamp ≡ false
      → fold h g p ≡ (false, g)
  unfolding fold
  fold_drop g p out = if_false _ _ out

  pub fold_full :
      (g : QueryGrouper) (p : QueryPlan)
      → in_window g.filter p.timestamp ≡ true
      → is_full g ≡ true
      → fold h g p ≡ (false, record g { truncated = true })
  unfolding fold
  fold_full g p inside full = if_true _ _ inside ∙ if_true _ _ full

  pub fold-accept :
      (g : QueryGrouper) (p : QueryPlan)
      → in_window g.filter p.timestamp ≡ true
      → is_full g ≡ false
      → fold h g p ≡ (true, accept h g p)
  unfolding fold
  fold-accept g p inside room = if_true _ _ inside ∙ if_false _ _ room
