-- ===== src/Scan/Masks.antt =====
-- Searching the lanes of a mask, as the kernels of crates/core/src/simd_scan.rs do it.
use pg_plansight.Prelude.{
  ℕ, zero, suc, ◌+◌, ◌-◌, ◌/◌, ◌%◌, ◌^◌, ◌≤◌, ◌<◌, ◌≡◌, refl, ap, Bool, true, false, not, Option,
  none, some, List, [], ◌∷◌, map, arith, ltb, ◌==◌, if◌then◌else◌, lt→ltb, le→ltb, ≢→==, length,
  replicate,
}
use native.Mathlib.Nat.{pow-suc, zero-add}
use pg_plansight.Scan.Verdict.{Simd, block, bits_value, choose_lanes, minimum}

-- `u64::trailing_zeros`.
unfoldable pub count_zeros : ℕ → ℕ → ℕ
count_zeros zero x = 0
count_zeros (suc k) x = let rest = suc (count_zeros k (x / 2)) in if x % 2 == 1 then 0 else rest

abbrev pub trailing_zeros : ℕ → ℕ
trailing_zeros = count_zeros 64

abbrev lane_index : List ℕ
lane_index = 0 ∷ 1 ∷ 2 ∷ 3 ∷ 4 ∷ 5 ∷ 6 ∷ 7 ∷ 8 ∷ 9 ∷ 10 ∷ 11 ∷ 12 ∷ 13 ∷ 14 ∷ 15 ∷ []

-- `!bits & ((1 << BLOCK) - 1)` of a `u64`.
abbrev false_lanes : ℕ → ℕ
false_lanes bits = (2 ^ 64 - 1 - bits) % 2 ^ block

-- `aarch64` is the compile-time test of the target.
pub first_false_lane : (s : Simd) → Bool → s.Mask8x16 → Option ℕ
first_false_lane s aarch64 mask =
    if aarch64
    then (let lane = s.reduce_min (s.select mask (s.splat block) (s.from_slice lane_index)) in
        if ltb lane block then some lane else none)
    else (let lanes = false_lanes (s.to_bitmask mask) in
        if lanes == 0 then none else some (trailing_zeros lanes))

-- The first lane that is not set.
abbrev pub index_false : List Bool → Option ℕ
index_false [] = none
index_false (false ∷ ms) = some 0
index_false (true ∷ ms) = elim (index_false ms) [ none ↦ none | some k ↦ some (suc k) ]

-- The lowest set digit, of the complement.
lowest :
    (ms : List Bool) (k fuel : ℕ)
    → index_false ms ≡ some k
    → k < fuel
    → count_zeros fuel (bits_value (map not ms)) ≡ k
unfolding count_zeros
lowest [] k fuel h l = absurd (no_lane h)
  where
    no_lane : none ≡ some k → ⊥
    no_lane e = cc
lowest (m ∷ ms) k zero h l = absurd (omega arith)
lowest (false ∷ ms) k (suc fuel) h l = ground arith
lowest (true ∷ ms) zero (suc fuel) h l = ground arith
lowest (true ∷ ms) (suc k) (suc fuel) h l = ground (arith, lowest ms k fuel)

complement : (ms : List Bool) → bits_value ms + bits_value (map not ms) + 1 ≡ 2 ^ length ms
complement [] = refl
complement (true ∷ ms) = omega (arith, complement ms, pow-suc 2 (length ms))
complement (false ∷ ms) = omega (arith, complement ms, pow-suc 2 (length ms))

no_false : (ms : List Bool) → index_false ms ≡ none → bits_value (map not ms) ≡ 0
no_false [] h = refl
no_false (false ∷ ms) h = absurd (some_lane h)
  where
    some_lane : ◌≡◌ {A = Option ℕ} (some 0) none → ⊥
    some_lane e = cc
no_false (true ∷ ms) h = ground (arith, no_false ms)

a_false : (ms : List Bool) (k : ℕ) → index_false ms ≡ some k → 0 < bits_value (map not ms)
a_false [] k h = absurd (no_lane h)
  where
    no_lane : none ≡ some k → ⊥
    no_lane e = cc
a_false (false ∷ ms) k h = omega arith
a_false (true ∷ ms) zero h = ground arith
a_false (true ∷ ms) (suc k) h = ground (arith, a_false ms k)

index_false-lt : (ms : List Bool) (k : ℕ) → index_false ms ≡ some k → k < length ms
index_false-lt [] k h = absurd (no_lane h)
  where
    no_lane : none ≡ some k → ⊥
    no_lane e = cc
index_false-lt (false ∷ ms) k h = ground arith
index_false-lt (true ∷ ms) zero h = omega arith
index_false-lt (true ∷ ms) (suc k) h = ground (arith, index_false-lt ms k)

abbrev count_from : ℕ → ℕ → List ℕ
count_from j zero = []
count_from j (suc n) = j ∷ count_from (suc j) n

-- A lane's index where the mask is false, and the block size elsewhere.
abbrev indices : List Bool → ℕ → List ℕ
indices ms j = choose_lanes ms (replicate (length ms) block) (count_from j (length ms))

indices-ge : (ms : List Bool) (j : ℕ) → j + length ms ≤ block → j ≤ minimum (indices ms j)
unfolding choose_lanes replicate
indices-ge [] j h = omega arith
indices-ge (true ∷ ms) j h = omega (arith, indices-ge ms (suc j) (omega arith))
indices-ge (false ∷ ms) j h = omega (arith, indices-ge ms (suc j) (omega arith))

indices-some :
    (ms : List Bool) (j k : ℕ)
    → j + length ms ≤ block
    → index_false ms ≡ some k
    → minimum (indices ms j) ≡ j + k
unfolding choose_lanes replicate
indices-some [] j k h e = absurd (no_lane e)
  where
    no_lane : none ≡ some k → ⊥
    no_lane e = cc
indices-some (false ∷ ms) j k h e = ground (arith, indices-ge ms (suc j))
indices-some (true ∷ ms) j zero h e = ground arith
indices-some (true ∷ ms) j (suc k) h e =
    ground (arith, indices-some ms (suc j) k, index_false-lt ms k)

indices-none : (ms : List Bool) (j : ℕ) → index_false ms ≡ none → block ≤ minimum (indices ms j)
unfolding choose_lanes replicate
indices-none [] j e = omega arith
indices-none (false ∷ ms) j e = absurd (some_lane e)
  where
    some_lane : ◌≡◌ {A = Option ℕ} (some 0) none → ⊥
    some_lane e = cc
indices-none (true ∷ ms) j e = ground (arith, indices-none ms (suc j))

module _ (s : Simd) (mask : s.Mask8x16) where
  by_minimum :
      s.reduce_min (s.select mask (s.splat block) (s.from_slice lane_index))
      ≡ minimum (indices (s.bits mask) 0)
  by_minimum =
      rw
        (
          s.reduce_min-lanes,
          s.lanes-select,
          s.lanes-splat block,
          s.lanes-from_slice lane_index refl,
        )
        (rw (s.length-bits mask) refl)

  by_digits : false_lanes (s.to_bitmask mask) ≡ bits_value (map not (s.bits mask))
  by_digits =
      rw (s.to_bitmask-bits mask)
        (omega (arith, complement (s.bits mask), ap (λ n. 2 ^ n) (s.length-bits mask)))

-- For both ways of searching, the first lane of a mask that is not set.
pub first_false_lane_lem :
    (s : Simd) (aarch64 : Bool) (mask : s.Mask8x16)
    → first_false_lane s aarch64 mask ≡ index_false (s.bits mask)
unfolding first_false_lane
first_false_lane_lem s true mask =
    rw (by_minimum s mask)
      (found (s.bits mask) (s.length-bits mask) (index_false (s.bits mask)) refl)
  where
    found :
        (ms : List Bool)
        → length ms ≡ block
        → (o : Option ℕ) → index_false ms ≡ o
        → (if ltb (minimum (indices ms 0)) block then some (minimum (indices ms 0)) else none)
          ≡ index_false ms
    found ms h none e = rw (e, le→ltb _ _ (indices-none ms 0 e))
    found ms h (some k) e = rw (
      e,
      indices-some ms 0 k (omega arith) e,
      zero-add,
      lt→ltb k block (omega (arith, index_false-lt ms k e)),
    )
first_false_lane_lem s false mask =
    rw (by_digits s mask)
      (found (s.bits mask) (s.length-bits mask) (index_false (s.bits mask)) refl)
  where
    found :
        (ms : List Bool)
        → length ms ≡ block
        → (o : Option ℕ) → index_false ms ≡ o
        → (if bits_value (map not ms) == 0
            then none
            else some (trailing_zeros (bits_value (map not ms))))
          ≡ index_false ms
    found ms h none e = rw (e, no_false ms e)
    found ms h (some k) e = rw (
      e,
      ≢→== (bits_value (map not ms)) 0 (omega (arith, a_false ms k e)),
      lowest ms k 64 e (omega (arith, index_false-lt ms k e)),
    )
