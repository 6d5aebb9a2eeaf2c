-- ===== src/Scan/Literal.antt =====
-- Part 3 of crates/core/src/simd_scan.rs: the search for a literal.
pub mod Bits
pub mod Kernel
pub mod First
use pg_plansight.Prelude.{
  ℕ, zero, suc, ◌+◌, ◌-◌, Bool, true, false, ◌&&◌, ◌||◌, Option, none, some, List, [], ◌∷◌, map,
  ltb, leb, ◌==◌, if◌then◌else◌, length, take, drop, bytes_eq,
}
use mathlib.Core.Option
use Prim.Native.Nat.{bit_and}
use pg_plansight.Scan.Verdict.{Simd, block}
use pg_plansight.Scan.Masks.{trailing_zeros}
use pg_plansight.Scan.Timestamp.{byte_at}

-- `&haystack[i..i + needle.len()] == needle`
abbrev pub matches_at : List ℕ → List ℕ → ℕ → Bool
matches_at haystack needle i = bytes_eq (take (length needle) (drop i haystack)) needle

abbrev pub first_byte : List ℕ → ℕ
first_byte needle = byte_at needle 0

abbrev pub last_byte : List ℕ → ℕ
last_byte needle = byte_at needle (length needle - 1)

-- The test of the byte loop at `i`.
abbrev pub candidate : List ℕ → List ℕ → ℕ → Bool
candidate haystack needle i =
    byte_at haystack i == first_byte needle
    && (byte_at haystack (i + length needle - 1) == last_byte needle
        && matches_at haystack needle i)

-- `while i <= end`, with the rounds that are left.
unfoldable pub find_from : ℕ → List ℕ → List ℕ → ℕ → Option ℕ
find_from zero haystack needle i = none
find_from (suc rounds) haystack needle i =
    let rest = find_from rounds haystack needle (i + 1) in
    if candidate haystack needle i then some i else rest

abbrev pub is_empty : List ℕ → Bool
is_empty [] = true
is_empty (b ∷ bs) = false

unfoldable pub find_literal_scalar : List ℕ → List ℕ → Option ℕ
find_literal_scalar haystack needle =
    if is_empty needle || ltb (length haystack) (length needle)
    then none
    else find_from (length haystack - length needle + 1) haystack needle 0

-- `while lanes != 0`: each round clears the lowest set lane, so 64 rounds are enough.
unfoldable pub try_lanes : ℕ → List ℕ → List ℕ → ℕ → ℕ → Option ℕ
try_lanes zero haystack needle offset lanes = none
try_lanes (suc fuel) haystack needle offset lanes =
    let start = offset + trailing_zeros lanes in
    let rest = try_lanes fuel haystack needle offset (bit_and lanes (lanes - 1)) in
    if lanes == 0 then none else if matches_at haystack needle start then some start else rest

module _ (s : Simd) where
  open s use {from_slice, splat, simd_eq, and_mask, any_true, to_bitmask}

  unfoldable pub candidates : List ℕ → List ℕ → ℕ → s.Mask8x16
  candidates haystack needle offset =
      let last_offset = offset + length needle - 1 in
      let block_first = from_slice (take block (drop offset haystack)) in
      let block_last = from_slice (take block (drop last_offset haystack)) in
      and_mask (simd_eq block_first (splat (first_byte needle)))
        (simd_eq block_last (splat (last_byte needle)))

  -- The loop over blocks, on fuel.
  unfoldable pub find_blocks : ℕ → List ℕ → List ℕ → ℕ → Option ℕ
  find_blocks zero haystack needle offset = none
  find_blocks (suc fuel) haystack needle offset =
      let found =
        (if any_true (candidates haystack needle offset)
          then try_lanes 64 haystack needle offset (to_bitmask (candidates haystack needle offset))
          else none) in
      let rest = find_blocks fuel haystack needle (offset + block) in
      let result : Option ℕ = (elim found [ none ↦ rest | some start ↦ some start ]) in
      if leb (offset + block) (length haystack - length needle + 1)
      then result
      else Option.map (λ k. offset + k) (find_literal_scalar (drop offset haystack) needle)

  unfoldable pub find_literal_simd : List ℕ → List ℕ → Option ℕ
  find_literal_simd haystack needle =
      if is_empty needle || ltb (length haystack) (length needle)
      then none
      else find_blocks (suc (length haystack)) haystack needle 0
