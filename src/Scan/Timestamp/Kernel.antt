-- ===== src/Scan/Timestamp/Kernel.antt =====
-- The vector kernel of the timestamp core (crates/core/src/simd_scan.rs) agrees with the byte loop.
use pg_plansight.Prelude.{
  ℕ, zero, suc, ◌+◌, ◌-◌, ◌≤◌, ◌<◌, ◌≡◌, refl, sym, ap, ap₂, ◌∙◌, inl, inr, Bool, true, false, ◌&&◌,
  ◌||◌, not, List, [], ◌∷◌, map, arith, ltb, leb, ◌==◌, if◌then◌else◌, ltb→lt, ltb→le, le→ltb,
  le→leb, lt→leb, Bool-cases, length, take, drop, replicate, length-take, length-drop, length-map,
}
use Prim.Native.Nat.{bit_or}
use pg_plansight.Scan.Verdict.{
  Bytes, Verdict, matched, no_match, unsure, Simd, block, is_ascii, is_ascii_digit, wrapping_sub,
  zip_with, choose_lanes, any, all,
}
use pg_plansight.Scan.Lanes.{
  all-zip_with-&&, length-zip_with, all-take-drop, any-take-drop, zip_with-take, zip_with-drop,
  bit_or_high, digit_by_sub,
}
use pg_plansight.Scan.Timestamp.{
  timestamp_core_simd, timestamp_prefix_len_simd, timestamp_prefix_len_scalar, continue_tail,
  ts_shape, ts_core_len, ts_window, digit_lane, literal_lane, ts_window_matches, ts_core_kernel,
  timestamp_core_scalar, byte_at,
}

-- What one lane tests.
abbrev pub lane_ok : ℕ → ℕ → Bool
lane_ok c b = if digit_lane c then is_ascii_digit b else b == literal_lane c

choose-lane_ok :
    (shape bs : List ℕ)
    → length shape ≡ length bs
    → Bytes bs
    → choose_lanes
        (map digit_lane shape)
        (zip_with leb
          (zip_with wrapping_sub bs (replicate (length bs) b'0'))
          (replicate (length bs) 9))
        (zip_with ◌==◌ bs (map literal_lane shape))
      ≡ zip_with lane_ok shape bs
unfolding choose_lanes zip_with replicate
choose-lane_ok [] [] h v = refl
choose-lane_ok [] (b ∷ bs) h v = absurd (omega arith)
choose-lane_ok (c ∷ cs) [] h v = absurd (omega arith)
choose-lane_ok (c ∷ cs) (b ∷ bs) h v =
    ap₂ (λ x y. (if digit_lane c then x else (b == literal_lane c)) ∷ y) (digit_by_sub b v.0)
      (choose-lane_ok cs bs (omega arith) v.1)

high_lanes :
    (xs ys : List ℕ)
    → length xs ≡ length ys
    → Bytes xs
    → Bytes ys
    → any (λ b. b) (zip_with (λ x y. leb y x) (zip_with bit_or xs ys) (replicate (length xs) 0x80))
      ≡ (any (leb 0x80) xs || any (leb 0x80) ys)
unfolding zip_with replicate
high_lanes [] [] h u v = refl
high_lanes [] (y ∷ ys) h u v = absurd (omega arith)
high_lanes (x ∷ xs) [] h u v = absurd (omega arith)
high_lanes (x ∷ xs) (y ∷ ys) h u v =
    rw (bit_or_high x y u.0 v.0, high_lanes xs ys (omega arith) u.1 v.1)
      (||_swap (leb 0x80 x) (leb 0x80 y) (any (leb 0x80) xs) (any (leb 0x80) ys))
  where
    ||_swap : (a b c d : Bool) → ((a || b) || (c || d)) ≡ ((a || c) || (b || d))
    ||_swap a b c d = ground arith

Bytes-take : (n : ℕ) (bs : List ℕ) → Bytes bs → Bytes (take n bs)
Bytes-take zero bs v = tt
Bytes-take (suc n) [] v = tt
Bytes-take (suc n) (b ∷ bs) v = (v.0, Bytes-take n bs v.1)

Bytes-drop : (n : ℕ) (bs : List ℕ) → Bytes bs → Bytes (drop n bs)
Bytes-drop zero bs v = v
Bytes-drop (suc n) [] v = tt
Bytes-drop (suc n) (b ∷ bs) v = Bytes-drop n bs v.1

module _ (s : Simd) where
  open s use {bits, lanes, from_slice}

  window_bits :
      (start : ℕ) (bs : List ℕ)
      → length bs ≡ block
      → length (take block (drop start ts_shape)) ≡ block
      → Bytes bs
      → bits (ts_window_matches s (from_slice bs) (ts_window start))
        ≡ zip_with lane_ok (take block (drop start ts_shape)) bs
  unfolding ts_window_matches
  window_bits start bs h k v =
      rw
        (
          s.bits-select,
          s.bits-from_mask (map digit_lane shape) (omega (arith, length-map digit_lane shape)),
          s.bits-le,
          s.lanes-sub,
          s.lanes-splat b'0',
          s.lanes-splat 9,
          s.bits-eq,
          s.lanes-from_slice bs h,
          s.lanes-from_slice (map literal_lane shape)
              (omega (arith, length-map literal_lane shape)),
        )
        (rw h at (choose-lane_ok shape bs (k ∙ sym h) v))
    where
      shape : List ℕ
      shape = take block (drop start ts_shape)

  core_kernel :
      (core : List ℕ)
      → length core ≡ ts_core_len
      → Bytes core
      → ts_core_kernel s core ≡ (
          if any (leb 0x80) core
          then unsure
          else if all (λ b. b) (zip_with lane_ok ts_shape core)
          then matched ts_core_len
          else no_match)
  unfolding ts_core_kernel
  core_kernel core h v =
      ap₂ (λ x y. if x then unsure else if y then matched ts_core_len else no_match) high shape
    where
      hs : List ℕ
      hs = take block core

      ts : List ℕ
      ts = drop (ts_core_len - block) core

      hl : length hs ≡ block
      hl = omega (arith, length-take block core)

      tl : length ts ≡ block
      tl = omega (arith, length-drop (ts_core_len - block) core)

      high :
          s.any_true (s.simd_ge (s.or (from_slice hs) (from_slice ts)) (s.splat 0x80))
          ≡ any (leb 0x80) core
      high =
          rw
            (
              s.any-bits,
              s.bits-ge,
              s.lanes-or,
              s.lanes-splat 0x80,
              s.lanes-from_slice hs hl,
              s.lanes-from_slice ts tl,
            )
            ((rw hl at (
                high_lanes hs ts (hl ∙ sym tl) (Bytes-take block core v)
                  (Bytes-drop (ts_core_len - block) core v)))
              ∙ any-take-drop (leb 0x80) core block (ts_core_len - block) (omega arith))

      head_bits :
          bits (ts_window_matches s (from_slice hs) (ts_window 0))
          ≡ zip_with lane_ok (take block ts_shape) hs
      head_bits = window_bits 0 hs hl refl (Bytes-take block core v)

      tail_bits :
          bits (ts_window_matches s (from_slice ts) (ts_window (ts_core_len - block)))
          ≡ zip_with lane_ok (drop (ts_core_len - block) ts_shape) ts
      tail_bits =
          window_bits (ts_core_len - block) ts tl refl (Bytes-drop (ts_core_len - block) core v)

      same_length :
          length (bits (ts_window_matches s (from_slice hs) (ts_window 0)))
          ≡ length (bits (ts_window_matches s (from_slice ts) (ts_window (ts_core_len - block))))
      same_length =
          rw (head_bits, tail_bits)
            (omega (
              arith,
              hl,
              tl,
              length-zip_with lane_ok (take block ts_shape) hs,
              length-zip_with lane_ok (drop (ts_core_len - block) ts_shape) ts,
            ))

      shape :
          s.all_true (
            s.and_mask
              (ts_window_matches s (from_slice hs) (ts_window 0))
              (ts_window_matches s (from_slice ts) (ts_window (ts_core_len - block))))
          ≡ all (λ b. b) (zip_with lane_ok ts_shape core)
      shape =
          rw (s.all-bits, s.bits-and, all-zip_with-&& _ _ same_length, head_bits, tail_bits)
            (rw (zip_with-take lane_ok ts_shape core block) (
              rw (zip_with-drop lane_ok ts_shape core (ts_core_len - block)) (
                all-take-drop (λ b. b) (zip_with lane_ok ts_shape core) block (ts_core_len - block)
                  (omega arith))))

-- The shape's tests from byte `k` on, over the whole line.
abbrev pub checks : List ℕ → List ℕ → ℕ → Bool
checks [] line k = true
checks (c ∷ cs) line k = lane_ok c (byte_at line k) && checks cs line (suc k)

pub byte_at-drop :
    (line : List ℕ) (k : ℕ) → k < length line → drop k line ≡ byte_at line k ∷ drop (suc k) line
byte_at-drop [] k h = absurd (omega arith)
byte_at-drop (b ∷ bs) zero h = refl
byte_at-drop (b ∷ bs) (suc k) h = byte_at-drop bs k (omega arith)

all-checks :
    (shape line : List ℕ) (k : ℕ)
    → k + length shape ≤ length line
    → all (λ b. b) (zip_with lane_ok shape (take (length shape) (drop k line)))
      ≡ checks shape line k
unfolding zip_with
all-checks [] line k h = refl
all-checks (c ∷ cs) line k h =
    rw (byte_at-drop line k (omega arith))
      (ap (λ x. lane_ok c (byte_at line k) && x) (all-checks cs line (suc k) (omega arith)))

abbrev chain : List Bool → Bool
chain [] = true
chain (b ∷ bs) = if b then chain bs else false

reorder :
    (d0 d1 d2 d3 d5 d6 d8 d9 d11 d12 d14 d15 d17 d18 l4 l7 l10 l13 l16 : Bool)
    → ◌≡◌ {A = Verdict}
        (if not
            (chain (d0 ∷ d1 ∷ d2 ∷ d3 ∷ d5 ∷ d6 ∷ d8 ∷ d9 ∷ d11 ∷ d12 ∷ d14 ∷ d15 ∷ d17 ∷ d18 ∷ []))
          then no_match
          else if not l4 || (not l7 || not l10)
          then no_match
          else if not l13 || not l16
          then no_match
          else matched ts_core_len)
        (if all
            (λ b. b)
            (d0 ∷ d1 ∷ d2 ∷ d3 ∷ l4 ∷ d5 ∷ d6 ∷ l7 ∷ d8 ∷ d9 ∷ l10 ∷ d11 ∷ d12 ∷ l13 ∷ d14 ∷ d15
              ∷ l16 ∷ d17 ∷ d18 ∷ [])
          then matched ts_core_len
          else no_match)
reorder d0 d1 d2 d3 d5 d6 d8 d9 d11 d12 d14 d15 d17 d18 l4 l7 l10 l13 l16 = ground arith

-- The byte loop's digit tests and literal tests are the shape's, in another order.
pub scalar_checks :
    (line : List ℕ)
    → ts_core_len ≤ length line
    → timestamp_core_scalar line ≡ (
        if any (λ b. not (is_ascii b)) (take ts_core_len line)
        then unsure
        else if checks ts_shape line 0
        then matched ts_core_len
        else no_match)
unfolding timestamp_core_scalar
scalar_checks line h = rw (le→ltb (length line) ts_core_len h) (
    ap (λ r. if any (λ b. not (is_ascii b)) (take ts_core_len line) then unsure else r)
      (reorder (d 0) (d 1) (d 2) (d 3) (d 5) (d 6) (d 8) (d 9) (d 11) (d 12) (d 14) (d 15) (d 17)
        (d 18) (byte_at line 4 == b'-') (byte_at line 7 == b'-') (byte_at line 10 == 0x20)
        (byte_at line 13 == b':') (byte_at line 16 == b':')))
  where
    d : ℕ → Bool
    d i = is_ascii_digit (byte_at line i)

any-high : (bs : List ℕ) → any (leb 0x80) bs ≡ any (λ b. not (is_ascii b)) bs
any-high [] = refl
any-high (b ∷ bs) = ground (arith, any-high bs)

pub scalar_short :
    (line : List ℕ) → ltb (length line) ts_core_len ≡ true → timestamp_core_scalar line ≡ no_match
unfolding timestamp_core_scalar
scalar_short line e = rw e

-- On every line of bytes, and for every vector unit whose operations act lane by lane, the kernel's
-- verdict on the 19-byte core is the byte loop's.
pub timestamp_core_simd-eq-scalar :
    (s : Simd) (line : List ℕ)
    → Bytes line
    → timestamp_core_simd s line ≡ timestamp_core_scalar line
unfolding timestamp_core_simd
timestamp_core_simd-eq-scalar s line v = elim (Bool-cases (ltb (length line) ts_core_len)) [
  | inl short ↦ rw (lt→leb _ _ (ltb→lt _ _ short)) (sym (scalar_short line short))
  | inr long ↦ rw (
    le→leb _ _ (ltb→le _ _ long),
    core_kernel s (take ts_core_len line)
        (omega (arith, length-take ts_core_len line, ltb→le _ _ long))
        (Bytes-take ts_core_len line v),
    scalar_checks line (ltb→le _ _ long),
    any-high (take ts_core_len line),
    all-checks ts_shape line 0 (ltb→le _ _ long),
  )
]

-- So the whole timestamp prefix is measured alike with and without vectors.
pub timestamp_prefix_len_simd-eq-scalar :
    (s : Simd) (line : List ℕ)
    → Bytes line
    → timestamp_prefix_len_simd s line ≡ timestamp_prefix_len_scalar line
unfolding timestamp_prefix_len_simd timestamp_prefix_len_scalar
timestamp_prefix_len_simd-eq-scalar s line v =
    ap (continue_tail line) (timestamp_core_simd-eq-scalar s line v)
