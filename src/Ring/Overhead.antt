-- ===== src/Ring/Overhead.antt =====
-- The self-overhead accumulator of the ring (crates/pg_extension/src/ring.rs) against plain sums,
-- minima and maxima of the samples.
use pg_plansight.Prelude.{ℕ, ◌+◌, ◌*◌, ◌%◌, ◌<◌, min, max, ◌≡◌, refl, List, [], ◌∷◌, arith, length}
use native.Mathlib.Nat.{mul-le-mul}
use pg_plansight.Ring.{
  Ring, u64_mod, u128_mod, u64_max, u128_max, record_overhead, reset_overhead, overhead_snapshot,
}

-- The samples of a run, the latest first.
pub record_all : Ring → List ℕ → Ring
record_all r [] = r
record_all r (ns ∷ earlier) = record_overhead (record_all r earlier) ns

abbrev pub sum : List ℕ → ℕ
sum [] = 0
sum (x ∷ xs) = sum xs + x

abbrev pub sum_squares : List ℕ → ℕ
sum_squares [] = 0
sum_squares (x ∷ xs) = sum_squares xs + x * x

abbrev pub least : List ℕ → ℕ
least [] = u64_max
least (x ∷ xs) = min x (least xs)

abbrev pub greatest : List ℕ → ℕ
greatest [] = 0
greatest (x ∷ xs) = max x (greatest xs)

abbrev pub Words : List ℕ → Type 0
Words [] = Unit
Words (x ∷ xs) = (x < u64_mod) × Words xs

pub record Summary (r : Ring) (xs : List ℕ) : Type 0 where
  pub count : r.ovh_count ≡ length xs % u64_mod
  pub total : r.ovh_sum_ns ≡ min (sum xs) u64_max
  pub squares : r.ovh_sumsq_ns ≡ min (sum_squares xs) u128_max
  pub low : r.ovh_min_ns ≡ least xs
  pub high : r.ovh_max_ns ≡ greatest xs

-- The square of a `u64` fits a `u128`.
square_lt : (x : ℕ) → x < u64_mod → x * x < u128_mod
square_lt x h =
    omega (
      arith,
      mul-le-mul {n₁ = x} {m₁ = x} {n₂ = u64_max} {m₂ = u64_max} (omega arith) (omega arith),
    )

record_overhead-Summary :
    {r : Ring} {xs : List ℕ} (ns : ℕ)
    → ns < u64_mod
    → Summary r xs
    → Summary (record_overhead r ns) (ns ∷ xs)
unfolding record_overhead
record_overhead-Summary {r} {xs} ns h s = record {
  count = omega (arith, s.count);
  total = omega (arith, s.total);
  squares = omega (arith, s.squares, square_lt ns h);
  low = ground (arith, s.low);
  high = ground (arith, s.high);
}

reset_overhead-Summary : (r : Ring) → Summary (reset_overhead r) []
unfolding reset_overhead
reset_overhead-Summary r = record {
  count = omega arith;
  total = omega arith;
  squares = omega arith;
  low = refl;
  high = refl;
}

-- After a reset and any samples, the accumulator holds their count (modulo 2^64), their sum and their
-- sum of squares clamped at the width's maximum, and their extremes: a saturated sum stays saturated.
pub record_all-Summary :
    (r : Ring) (xs : List ℕ) → Words xs → Summary (record_all (reset_overhead r) xs) xs
unfolding record_all
record_all-Summary r [] w = reset_overhead-Summary r
record_all-Summary r (x ∷ xs) w = record_overhead-Summary x w.0 (record_all-Summary r xs w.1)

abbrev pub least_or_zero : List ℕ → ℕ
least_or_zero [] = 0
least_or_zero (x ∷ xs) = least (x ∷ xs)

-- After a reset and fewer than 2^64 samples, a snapshot reports the count, the clamped sums and the
-- extremes of the samples, and 0 for the minimum of no samples.
pub overhead_snapshot_lem :
    (r : Ring) (xs : List ℕ)
    → Words xs
    → length xs < u64_mod
    → overhead_snapshot (record_all (reset_overhead r) xs) ≡ (
      length xs,
      min (sum xs) u64_max,
      min (sum_squares xs) u128_max,
      least_or_zero xs,
      greatest xs,
    )
unfolding overhead_snapshot
overhead_snapshot_lem r [] w h = ground (arith, record_all-Summary r [] w)
overhead_snapshot_lem r (x ∷ xs) w h = ground (arith, record_all-Summary r (x ∷ xs) w)
