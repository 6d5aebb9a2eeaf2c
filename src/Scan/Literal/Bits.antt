-- ===== src/Scan/Literal/Bits.antt =====
-- Clearing the lowest set bit, `lanes &= lanes - 1` of crates/core/src/simd_scan.rs.
use pg_plansight.Prelude.{
  ℕ, zero, suc, ◌+◌, ◌-◌, ◌*◌, ◌/◌, ◌%◌, ◌≤◌, ◌<◌, min, ◌≡◌, refl, sym, ◌∙◌, ◌≢◌, arith,
}
use Prim.Native.Nat.{bit_and, digits, bit_and-bitwise}
use pg_plansight.Scan.Masks.{count_zeros}

-- The digit recursion with `rounds` to go; the native operation gives itself as many as its left
-- operand says.
abbrev common : ℕ → ℕ → ℕ → ℕ
common rounds x y = digits (λ _. 0) min rounds x y

common-zero : (rounds y : ℕ) → common rounds 0 y ≡ 0
common-zero zero y = refl
common-zero (suc rounds) y = refl

-- Rounds to spare change nothing.
common-bit_and : (bound rounds x y : ℕ) → x ≤ bound → x ≤ rounds → common rounds x y ≡ bit_and x y
common-bit_and bound rounds zero y _ _ = common-zero rounds y ∙ sym (bit_and-bitwise 0 y)
common-bit_and zero rounds (suc x) y le _ = absurd (omega (arith, le))
common-bit_and (suc bound) zero (suc x) y _ le = absurd (omega (arith, le))
common-bit_and (suc bound) (suc rounds) (suc x) y le le' =
    let less : suc x / 2 ≤ bound = omega arith in
    omega (
      arith,
      common-bit_and bound rounds (suc x / 2) (y / 2) less (omega arith),
      common-bit_and bound x (suc x / 2) (y / 2) less (omega arith),
      bit_and-bitwise (suc x) y,
    )

-- The conjunction of two numbers from that of their halves.
bit_and-halves : (x y : ℕ) → bit_and x y ≡ 2 * bit_and (x / 2) (y / 2) + min (x % 2) (y % 2)
bit_and-halves zero y = omega (arith, common-bit_and 0 0 0 y, common-bit_and 0 0 0 (y / 2))
bit_and-halves (suc x) y =
    omega (arith, bit_and-bitwise (suc x) y, common-bit_and x x (suc x / 2) (y / 2))

bit_and_self : (bound x : ℕ) → x ≤ bound → bit_and x x ≡ x
bit_and_self bound zero _ = sym (common-bit_and 0 0 0 0 (omega arith) (omega arith))
bit_and_self zero (suc x) le = absurd (omega (arith, le))
bit_and_self (suc bound) (suc x) le =
    let halved : suc x / 2 ≤ bound = omega arith in
    omega (arith, bit_and-halves (suc x) (suc x), bit_and_self bound (suc x / 2) halved)

-- A number moved up by `j` binary digits.
abbrev pub shifted : ℕ → ℕ → ℕ
shifted zero x = x
shifted (suc j) x = 2 * shifted j x

shifted-pos : (j x : ℕ) → 0 < x → 0 < shifted j x
shifted-pos zero x h = h
shifted-pos (suc j) x h = omega (arith, shifted-pos j x h)

pub clear_lowest :
    (j v : ℕ) → bit_and (shifted j (1 + 2 * v)) (shifted j (1 + 2 * v) - 1) ≡ shifted (suc j) v
clear_lowest zero v =
    rw (bit_and-halves (1 + 2 * v) (1 + 2 * v - 1), half_odd v, half_even v)
      (omega (arith, bit_and_self v v (omega arith)))
  where
    half_odd : (v : ℕ) → (1 + 2 * v) / 2 ≡ v
    half_odd v = omega arith

    half_even : (v : ℕ) → (1 + 2 * v - 1) / 2 ≡ v
    half_even v = omega arith
clear_lowest (suc j) v =
    rw
      (
        bit_and-halves (2 * y) (2 * y - 1),
        half y,
        half_less y (shifted-pos j (1 + 2 * v) (omega arith)),
        clear_lowest j v,
      )
      (omega (arith, shifted-pos j (1 + 2 * v) (omega arith)))
  where
    y : ℕ
    y = shifted j (1 + 2 * v)

    half : (y : ℕ) → 2 * y / 2 ≡ y
    half y = omega arith

    half_less : (y : ℕ) → 0 < y → (2 * y - 1) / 2 ≡ y - 1
    half_less y h = omega arith

pub count_zeros-shifted : (j v fuel : ℕ) → j < fuel → count_zeros fuel (shifted j (1 + 2 * v)) ≡ j
unfolding count_zeros
count_zeros-shifted j v zero h = absurd (omega arith)
count_zeros-shifted zero v (suc fuel) h = ground arith
count_zeros-shifted (suc j) v (suc fuel) h = ground (arith, count_zeros-shifted j v fuel)

pub shifted-ne-zero : (j v : ℕ) → shifted j (1 + 2 * v) ≢ 0
shifted-ne-zero j v e = omega (arith, shifted-pos j (1 + 2 * v) (omega arith))
