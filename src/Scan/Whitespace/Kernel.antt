-- ===== src/Scan/Whitespace/Kernel.antt =====
-- The block-wise kernel for leading white space (crates/core/src/simd_scan.rs) agrees with the byte
-- loop.
use pg_plansight.Prelude.{
  ℕ, zero, suc, ◌+◌, ◌-◌, ◌≤◌, ◌<◌, ◌≡◌, sym, ap, subst, ◌∙◌, inl, inr, Bool, true, false, ◌&&◌,
  Option, none, some, List, map, arith, ltb, leb, if◌then◌else◌, ltb→lt, ltb→le, leb→le, Bool-cases,
  Option-cases, length, take, drop, length-take, length-drop,
}
use pg_plansight.Scan.Verdict.{matched, unsure, Simd, block, is_ascii}
use pg_plansight.Scan.Masks.{first_false_lane, first_false_lane_lem, index_false}
use pg_plansight.Scan.Timestamp.{byte_at}
use pg_plansight.Scan.Whitespace.{
  is_ascii_ws, scan_ws, leading_whitespace_scalar, shift, ws_lanes, leading_ws_loop,
  leading_whitespace_simd,
}
use pg_plansight.Scan.Whitespace.Blanks.{
  Blank, byte_at-drop, byte_at-take, scan_ws-skip, scan_ws-stop, scan_ws-shift, bits-ws_lanes,
  index_map-none, index_map-some,
}

abbrev chunk_at : List ℕ → ℕ → List ℕ
chunk_at line offset = take block (drop offset line)

abbrev lane_at : Simd → Bool → List ℕ → ℕ → Option ℕ
lane_at s aarch64 line offset = first_false_lane s aarch64 (ws_lanes s (chunk_at line offset))

-- Where the loop goes on after a block of white space.
abbrev next_offset : List ℕ → ℕ → ℕ
next_offset line after =
    if ltb after (length line) && ltb (length line) (after + block)
    then length line - block
    else after

next_offset_bounds :
    (line : List ℕ) (offset : ℕ)
    → offset + block ≤ length line
    → let next = next_offset line (offset + block) in
      (offset < next) × (next ≤ offset + block) × (next ≤ length line)
next_offset_bounds line offset h = ground arith

-- What one block shows of the line.
module _ (s : Simd) (aarch64 : Bool) (line : List ℕ) (offset : ℕ)
    (room : offset + block ≤ length line) where
  length-chunk : length (chunk_at line offset) ≡ block
  length-chunk = omega (arith, length-take block (drop offset line), length-drop offset line)

  chunk-byte_at : (i : ℕ) → i < block → byte_at (chunk_at line offset) i ≡ byte_at line (offset + i)
  chunk-byte_at i h = byte_at-take (drop offset line) block i h ∙ byte_at-drop line offset i

  chunk-lanes : lane_at s aarch64 line offset ≡ index_false (map is_ascii_ws (chunk_at line offset))
  chunk-lanes =
      first_false_lane_lem s aarch64 _
      ∙ ap index_false (bits-ws_lanes s (chunk_at line offset) length-chunk)

  chunk-Blank :
      (k : ℕ)
      → k ≤ block
      → Blank line offset
      → ((i : ℕ) → i < k → is_ascii_ws (byte_at (chunk_at line offset) i) ≡ true)
      → Blank line (offset + k)
  chunk-Blank k le w here i h = elim (Bool-cases (ltb i offset)) [
    | inl before ↦ w i (ltb→lt i offset before)
    | inr within ↦
        subst (λ x. is_ascii_ws x ≡ true)
          (chunk-byte_at (i - offset) (omega (arith, ltb→le i offset within))
            ∙ ap (byte_at line) {y = i} (omega (arith, ltb→le i offset within)))
          (here (i - offset) (omega (arith, ltb→le i offset within)))
  ]

  chunk-none :
      lane_at s aarch64 line offset ≡ none → Blank line offset → Blank line (offset + block)
  chunk-none e w = chunk-Blank block (omega arith) w (λ i h.
      index_map-none is_ascii_ws (chunk_at line offset) (sym chunk-lanes ∙ e) i
        (omega (arith, length-chunk)))

  -- A block with a lane that stops the run decides as the byte loop does.
  chunk-some :
      (k : ℕ)
      → lane_at s aarch64 line offset ≡ some k
      → Blank line offset
      → (if is_ascii (byte_at line (offset + k)) then matched (offset + k) else unsure)
        ≡ leading_whitespace_scalar line
  chunk-some k e w =
      let (l, stop, before) =
        index_map-some is_ascii_ws (chunk_at line offset) k (sym chunk-lanes ∙ e) in
      let within : k < block = omega (arith, length-chunk) in
      sym (
        scan_ws-stop line (offset + k) (chunk-Blank k (omega arith) w before) (omega arith)
          (subst (λ x. is_ascii_ws x ≡ false) (chunk-byte_at k within) stop))

Blank-le : (line : List ℕ) (m n : ℕ) → m ≤ n → Blank line n → Blank line m
Blank-le line m n h w i l = w i (omega arith)

tail_scan :
    (line : List ℕ) (offset : ℕ)
    → Blank line offset
    → offset ≤ length line
    → shift offset (leading_whitespace_scalar (drop offset line)) ≡ leading_whitespace_scalar line
unfolding leading_whitespace_scalar
tail_scan line offset w h = sym (
    scan_ws-skip line offset 0 w h
    ∙ ap (scan_ws (drop offset line)) {y = offset + 0} (omega arith)
    ∙ scan_ws-shift (drop offset line) offset 0)

module _ (s : Simd) (aarch64 : Bool) (line : List ℕ) where
  loop_lem :
      (fuel offset : ℕ)
      → Blank line offset
      → offset ≤ length line
      → length line - offset < fuel
      → leading_ws_loop s aarch64 fuel line offset ≡ leading_whitespace_scalar line
  unfolding leading_ws_loop
  loop_lem zero offset w h m = absurd (omega arith)
  loop_lem (suc fuel) offset w h m = elim (Bool-cases (leb (offset + block) (length line))) [
    | inr short ↦ rw short (tail_scan line offset w h)
    | inl room ↦ elim (Option-cases (lane_at s aarch64 line offset)) [
      | inl e ↦
          let (on, back, within) = next_offset_bounds line offset (leb→le _ _ room) in
          rw (room, e)
            (loop_lem fuel (next_offset line (offset + block))
              (Blank-le line _ _ back (chunk-none s aarch64 line offset (leb→le _ _ room) e w))
              within (omega (arith, on, within)))
      | inr (k, e) ↦ rw (room, e) (chunk-some s aarch64 line offset (leb→le _ _ room) k e w)
    ]
  ]

-- The block-wise kernel, on either way of searching a mask, counts the white space that the byte
-- loop counts and is unsure where it is; it ends within `length line + 1` rounds.
pub leading_whitespace_simd-eq-scalar :
    (s : Simd) (aarch64 : Bool) (line : List ℕ)
    → leading_whitespace_simd s aarch64 line ≡ leading_whitespace_scalar line
unfolding leading_whitespace_simd
leading_whitespace_simd-eq-scalar s aarch64 line =
    loop_lem s aarch64 line (suc (length line)) 0 (λ i h. absurd (omega arith)) (omega arith)
      (omega arith)
