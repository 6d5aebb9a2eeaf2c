-- ===== src/Scan/Whitespace.antt =====
-- Part 2 of crates/core/src/simd_scan.rs: the run of white space at the start of a line.
pub mod Blanks
pub mod Kernel
use pg_plansight.Prelude.{
  ℕ, zero, suc, ◌+◌, ◌-◌, Bool, ◌&&◌, ◌||◌, none, some, List, [], ◌∷◌, ltb, leb, ◌==◌,
  if◌then◌else◌, length, take, drop,
}
use pg_plansight.Scan.Verdict.{
  Bytes, Verdict, matched, no_match, unsure, Simd, block, is_ascii, wrapping_sub, zip_with,
}
use pg_plansight.Scan.Masks.{first_false_lane, first_false_lane_lem, index_false}
use pg_plansight.Scan.Timestamp.{byte_at}

abbrev pub is_ascii_ws : ℕ → Bool
is_ascii_ws b = b == 0x20 || leb (wrapping_sub b 0x09) (0x0D - 0x09)

-- The scalar loop at index `i`; the list is the line from there on.
abbrev pub scan_ws : List ℕ → ℕ → Verdict
scan_ws [] i = matched i
scan_ws (b ∷ bs) i =
    let rest = scan_ws bs (i + 1) in
    if is_ascii_ws b then rest else if is_ascii b then matched i else unsure

unfoldable pub leading_whitespace_scalar : List ℕ → Verdict
leading_whitespace_scalar line = scan_ws line 0

abbrev pub shift : ℕ → Verdict → Verdict
shift offset (matched n) = matched (offset + n)
shift offset no_match = no_match
shift offset unsure = unsure

module _ (s : Simd) where
  open s use {from_slice, splat, sub, simd_eq, simd_le, or_mask}

  pub ws_lanes : List ℕ → s.Mask8x16
  ws_lanes chunk =
      let b = from_slice chunk in
      or_mask (simd_eq b (splat 0x20)) (simd_le (sub b (splat 0x09)) (splat (0x0D - 0x09)))

module _ (s : Simd) (aarch64 : Bool) where
  -- The loop, on fuel; out of fuel it would answer `no_match`. A last block that would stick out is pulled back to overlap the one before it.
  pub leading_ws_loop : ℕ → List ℕ → ℕ → Verdict
  leading_ws_loop zero line offset = no_match
  leading_ws_loop (suc fuel) line offset =
      let after = offset + block in
      let rest = leading_ws_loop fuel line (
        if ltb after (length line) && ltb (length line) (after + block)
        then length line - block
        else after) in
      let found : Verdict =
        (elim (first_false_lane s aarch64 (ws_lanes s (take block (drop offset line)))) [
          | none ↦ rest
          | some lane ↦
              if is_ascii (byte_at line (offset + lane)) then matched (offset + lane) else unsure
        ]) in
      if leb after (length line)
      then found
      else shift offset (leading_whitespace_scalar (drop offset line))

  pub leading_whitespace_simd : List ℕ → Verdict
  leading_whitespace_simd line = leading_ws_loop (suc (length line)) line 0
