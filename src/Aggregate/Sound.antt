-- ===== src/Aggregate/Sound.antt =====
-- The counts of a row (`build_stat_row` of crates/pg_extension/src/aggregate.rs) agree with each
-- other, and none of its indices is out of bounds.
-- keys: nat_eq
use pg_plansight.Prelude.{
  ℕ, zero, suc, ◌+◌, ◌≤◌, ◌<◌, ◌≡◌, refl, ap, ◌∙◌, inl, inr, Option, none, some, List, [], ◌∷◌, map,
  arith, ◌==◌, and_then, Bool-cases, length, lookup, put, nat_eq,
}
use pg_plansight.Prelude.Weights.{weight, weight_found}
use pg_plansight.Aggregate.Latency.{latency_bucket_count}
use pg_plansight.Aggregate.Rows.{WindowBucket, StatRow, increment, or_insert_with, no_counts}

abbrev pub sum : List ℕ → ℕ
sum [] = 0
sum (n ∷ ns) = n + sum ns

pub data Every {ℓ} {A : Type ℓ} (P : A → Type 0) : List A → Type ℓ where
  every_nil : Every P []
  every_cons : {x : A} {xs : List A} → P x → Every P xs → Every P (x ∷ xs)

-- Counts that add up to the calls they were made of.
pub record Tallies (calls : ℕ) (counts : List ℕ) : Type 0 where
  pub sized : length counts ≡ latency_bucket_count
  pub adds_up : sum counts ≡ calls

unfoldable pub Tallied : WindowBucket → Type 0
Tallied entry = Tallies entry.calls entry.latency_buckets

-- What a row's counts promise.
pub record IsBalanced (row : StatRow) : Type 0 where
  pub buckets : Tallies row.calls row.latency_buckets
  pub minutes : Every Tallied row.window
  pub spread : sum (map (λ entry. entry.calls) row.window) ≡ row.calls
  pub breaches : row.slo_breaches ≤ row.calls

abbrev Incremented : List ℕ → Option (List ℕ) → Type 0
Incremented counts o =
    (counts' : List ℕ) × (o ≡ some counts')
    × (length counts' ≡ length counts)
    × (sum counts' ≡ sum counts + 1)

increment_lem :
    (counts : List ℕ) (i : ℕ) → i < length counts → Incremented counts (increment counts i)
unfolding increment
increment_lem [] i h = absurd (omega arith)
increment_lem (n ∷ ns) zero h = ((n + 1) ∷ ns, refl, refl, omega arith)
increment_lem (n ∷ ns) (suc i) h =
    let (counts, made, same, more) = increment_lem ns i (omega arith) in
    (n ∷ counts, ap (λ o. and_then o (λ c. some (n ∷ c))) made, ap suc same, omega (arith, more))

pub increment-Tallies :
    (calls : ℕ) (counts : List ℕ) (i : ℕ)
    → Tallies calls counts
    → i < latency_bucket_count
    → (counts' : List ℕ) × (increment counts i ≡ some counts') × Tallies (calls + 1) counts'
increment-Tallies calls counts i t h =
    let (counts', made, same, more) = increment_lem counts i (omega (arith, t.sized)) in
    (counts', made, record { sized = same ∙ t.sized; adds_up = more ∙ ap (λ n. n + 1) t.adds_up })

pub no_counts-Tallies : Tallies 0 no_counts
no_counts-Tallies = record { sized = refl; adds_up = refl }

-- Every value of a map.
abbrev pub values : List (ℕ × WindowBucket) → List WindowBucket
values = map (λ entry. entry.1)

pub or_insert_with-Tallied :
    (k : ℕ) (m : List (ℕ × WindowBucket))
    → Every Tallied (values m)
    → Tallied (or_insert_with (lookup k m) k)
unfolding lookup Tallied
or_insert_with-Tallied k [] every_nil = no_counts-Tallies
or_insert_with-Tallied k ((j, entry) ∷ m) (every_cons t ts) = elim (Bool-cases (j == k)) [
  | inl here ↦ rw here t
  | inr later ↦ rw later (or_insert_with-Tallied k m ts)
]

pub put-Tallied :
    (k : ℕ) (entry : WindowBucket) (m : List (ℕ × WindowBucket))
    → Tallied entry
    → Every Tallied (values m)
    → Every Tallied (values (put k entry m))
unfolding put
put-Tallied k entry [] t every_nil = every_cons t every_nil
put-Tallied k entry ((j, other) ∷ m) t (every_cons u ts) = elim (Bool-cases (j == k)) [
  | inl here ↦ rw here (every_cons t ts)
  | inr later ↦ rw later (every_cons u (put-Tallied k entry m t ts))
]

pub weight-values :
    (m : List (ℕ × WindowBucket))
    → sum (map (λ entry. entry.calls) (values m)) ≡ weight (λ entry. entry.calls) m
weight-values [] = refl
weight-values (entry ∷ m) = ap (λ n. entry.1.calls + n) (weight-values m)

pub or_insert_with-calls :
    (o : Option WindowBucket) (k : ℕ)
    → (or_insert_with o k).calls ≡ weight_found (λ entry. entry.calls) o
or_insert_with-calls none k = refl
or_insert_with-calls (some entry) k = refl
