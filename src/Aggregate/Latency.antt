-- ===== src/Aggregate/Latency.antt =====
-- The latency buckets of crates/core/src/latency.rs. An `f64` is its bit pattern, comparisons are
-- computed on patterns, and division is a parameter.
use pg_plansight.Prelude.{
  ℕ, suc, ◌+◌, ◌-◌, ◌*◌, ◌%◌, ◌^◌, ◌≤◌, ◌<◌, inl, inr, Bool, ◌&&◌, ◌||◌, not, Option, none, some,
  List, [], ◌∷◌, arith, ltb, leb, if◌then◌else◌, Bool-cases, length,
}
use pg_plansight.Grouping.Plans.{sign_bit}

abbrev is_nan : ℕ → Bool
is_nan bits = ltb (2047 * 2 ^ 52) (bits % sign_bit)

-- The place of a number in the order of the numbers: both zeros have the same.
abbrev value_rank : ℕ → ℕ
value_rank bits = if ltb bits sign_bit then sign_bit + bits else 2 ^ 64 - bits

-- `a <= b` and `a > b`, false where one of them is not a number.
abbrev pub f64_le : ℕ → ℕ → Bool
f64_le a b = not (is_nan a || is_nan b) && leb (value_rank a) (value_rank b)

abbrev pub f64_gt : ℕ → ℕ → Bool
f64_gt a b = not (is_nan a || is_nan b) && ltb (value_rank b) (value_rank a)

-- 0.001, 0.01, 0.1, 1, 5, 10, 30, 60 and 300.
abbrev pub latency_bucket_bounds_seconds : List ℕ
latency_bucket_bounds_seconds =
    0x3f50624dd2f1a9fc ∷ 0x3f847ae147ae147b ∷ 0x3fb999999999999a ∷ 0x3ff0000000000000
    ∷ 0x4014000000000000 ∷ 0x4024000000000000 ∷ 0x403e000000000000 ∷ 0x404e000000000000
    ∷ 0x4072c00000000000 ∷ []

abbrev pub latency_bucket_count : ℕ
latency_bucket_count = length latency_bucket_bounds_seconds + 1

-- 1000.
abbrev thousand : ℕ
thousand = 0x408f400000000000

abbrev next : Option ℕ → Option ℕ
next none = none
next (some i) = some (i + 1)

-- `Iterator::position`
unfoldable pub position : (ℕ → Bool) → List ℕ → Option ℕ
position test [] = none
position test (x ∷ xs) = let rest = position test xs in if test x then some 0 else next rest

abbrev unwrap_or : Option ℕ → ℕ → ℕ
unwrap_or none default = default
unwrap_or (some i) default = i

unfoldable pub latency_bucket_index : (ℕ → ℕ → ℕ) → ℕ → ℕ
latency_bucket_index f64_div duration_ms =
    let seconds = f64_div duration_ms thousand in
    unwrap_or (position (λ bound. f64_le seconds bound) latency_bucket_bounds_seconds)
      (length latency_bucket_bounds_seconds)

unwrap_or-next : (o : Option ℕ) (n : ℕ) → unwrap_or o n ≤ n → unwrap_or (next o) (suc n) ≤ suc n
unwrap_or-next none n h = omega arith
unwrap_or-next (some i) n h = omega arith

position-within :
    (test : ℕ → Bool) (xs : List ℕ) → unwrap_or (position test xs) (length xs) ≤ length xs
unfolding position
position-within test [] = omega arith
position-within test (x ∷ xs) = elim (Bool-cases (test x)) [
  | inl here ↦ rw here (omega arith)
  | inr later ↦ rw later (unwrap_or-next (position test xs) (length xs) (position-within test xs))
]

pub latency_bucket_index-within :
    (f64_div : ℕ → ℕ → ℕ) (duration_ms : ℕ)
    → latency_bucket_index f64_div duration_ms < latency_bucket_count
unfolding latency_bucket_index
latency_bucket_index-within f64_div duration_ms = omega (
  arith,
  position-within (λ bound. f64_le (f64_div duration_ms thousand) bound)
      latency_bucket_bounds_seconds,
)
