-- ===== src/Scan/Timestamp/Pattern.antt =====
-- The timestamp scanner of crates/core/src/simd_scan.rs against the pattern that it replaces,
-- `LOG_LINE_PATTERN` of crates/core/src/parser_utils.rs.
use pg_plansight.Prelude.{
  ℕ, zero, suc, ◌+◌, ◌-◌, ◌≤◌, ◌<◌, ◌≡◌, refl, ap, ◌∙◌, inl, inr, Bool, true, false, ◌&&◌, not,
  Option, none, some, List, [], ◌∷◌, arith, ltb, ◌==◌, if◌then◌else◌, ltb→lt, ltb→le, Bool-cases,
  length, take, drop, length-drop,
}
use mathlib.Core.Option
use pg_plansight.Scan.Verdict.{Verdict, matched, no_match, is_ascii, is_ascii_digit, any}
use pg_plansight.Scan.Regex.{
  Regex, seq, rests, first, first-seq, first-class, fraction, zone, shaped,
}
use pg_plansight.Scan.Timestamp.{
  ts_shape, ts_core_len, timestamp_tail, continue_tail, timestamp_prefix_len_scalar, byte_at,
}
use pg_plansight.Scan.Timestamp.Kernel.{lane_ok, checks, byte_at-drop, scalar_checks, scalar_short}
use pg_plansight.Scan.Timestamp.Groups.{after_fraction, after_zone, first-fraction, first-zone}
use pg_plansight.Scan.Timestamp.Tail.{Ascii, fraction_tail-Reaches, zone_tail-Reaches}

-- Capture group 1 of the pattern.
abbrev pub timestamp_pattern : Regex
timestamp_pattern = shaped ts_shape (seq fraction zone)

abbrev pub regex_verdict : List ℕ → Option (List ℕ) → Verdict
regex_verdict line none = no_match
regex_verdict line (some rest) = matched (length line - length rest)

abbrev fits : List ℕ → List ℕ → Bool
fits [] s = true
fits (c ∷ cs) [] = false
fits (c ∷ cs) (b ∷ s) = lane_ok c b && fits cs s

first-shaped :
    (shape : List ℕ) (r : Regex) (s : List ℕ)
    → first (rests (shaped shape r) s)
      ≡ (if fits shape s then first (rests r (drop (length shape) s)) else none)
first-shaped [] r s = refl
first-shaped (c ∷ cs) r [] = elim (Bool-cases (c == b'd')) [ inl e ↦ rw e refl | inr e ↦ rw e refl ]
first-shaped (c ∷ cs) r (b ∷ s) = elim (Bool-cases (c == b'd')) [
  | inl e ↦ rw e (
      first-class is_ascii_digit (shaped cs r) b s
      ∙ tested (is_ascii_digit b) (first-shaped cs r s))
  | inr e ↦
      rw e (first-class (λ x. x == c) (shaped cs r) b s ∙ tested (b == c) (first-shaped cs r s))
]
  where
    tested :
        (t : Bool)
        → first (rests (shaped cs r) s)
          ≡ (if fits cs s then first (rests r (drop (length cs) s)) else none)
        → (if t then first (rests (shaped cs r) s) else none)
          ≡ (if t && fits cs s then first (rests r (drop (length cs) s)) else none)
    tested true ih = ih
    tested false ih = refl

fits-checks :
    (shape line : List ℕ) (k : ℕ)
    → k + length shape ≤ length line
    → fits shape (drop k line) ≡ checks shape line k
fits-checks [] line k h = refl
fits-checks (c ∷ cs) line k h =
    rw (byte_at-drop line k (omega arith))
      (ap (λ x. lane_ok c (byte_at line k) && x) (fits-checks cs line (suc k) (omega arith)))

fits_short : (shape s : List ℕ) → length s < length shape → fits shape s ≡ false
fits_short [] s h = absurd (omega arith)
fits_short (c ∷ cs) [] h = refl
fits_short (c ∷ cs) (b ∷ s) h = ground (arith, fits_short cs s)

first-tails :
    (s : List ℕ) → first (rests (seq fraction zone) s) ≡ some (after_zone (after_fraction s))
first-tails s = first-seq fraction zone after_zone s first-zone ∙ rw (first-fraction s)

Ascii-any : (n : ℕ) (line : List ℕ) → Ascii line → any (λ b. not (is_ascii b)) (take n line) ≡ false
Ascii-any zero line v = refl
Ascii-any (suc n) [] v = refl
Ascii-any (suc n) (b ∷ bs) v = ground (arith, Ascii-any n bs)

timestamp_tail-rest :
    (line : List ℕ)
    → Ascii line
    → ts_core_len ≤ length line
    → timestamp_tail line
      ≡ matched (length line - length (after_zone (after_fraction (drop ts_core_len line))))
unfolding timestamp_tail Option.bind
timestamp_tail-rest line v h =
    let (p, e, d, b) = fraction_tail-Reaches line ts_core_len v h in
    let (q, e', d', b') = zone_tail-Reaches line p v b in
    rw (e, e', ← d, ← d') (ap matched (omega (arith, length-drop q line)))

scalar_long :
    (line : List ℕ)
    → Ascii line
    → ts_core_len ≤ length line
    → timestamp_prefix_len_scalar line ≡ regex_verdict line (first (rests timestamp_pattern line))
unfolding timestamp_prefix_len_scalar
scalar_long line v h =
    rw
      (
        scalar_checks line h,
        Ascii-any ts_core_len line v,
        first-shaped ts_shape (seq fraction zone) line,
        fits-checks ts_shape line 0 h,
        first-tails (drop ts_core_len line),
      )
      (by_core (checks ts_shape line 0))
  where
    by_core :
        (c : Bool)
        → continue_tail line (if c then matched ts_core_len else no_match)
          ≡ regex_verdict line
              (if c then some (after_zone (after_fraction (drop ts_core_len line))) else none)
    by_core true = timestamp_tail-rest line v h
    by_core false = refl

scalar_too_short :
    (line : List ℕ)
    → ltb (length line) ts_core_len ≡ true
    → timestamp_prefix_len_scalar line ≡ regex_verdict line (first (rests timestamp_pattern line))
unfolding timestamp_prefix_len_scalar
scalar_too_short line e = rw (
  scalar_short line e,
  first-shaped ts_shape (seq fraction zone) line,
  fits_short ts_shape line (ltb→lt _ _ e),
)

-- On every line of ASCII bytes the byte-wise scanner decides, never answers `Unsure`, and its answer
-- is that of the greedy backtracking pattern: no match, or the length of the pattern's first way to
-- match.
pub timestamp_prefix_len_scalar-eq-pattern :
    (line : List ℕ)
    → Ascii line
    → timestamp_prefix_len_scalar line ≡ regex_verdict line (first (rests timestamp_pattern line))
timestamp_prefix_len_scalar-eq-pattern line v = elim (Bool-cases (ltb (length line) ts_core_len)) [
  | inl short ↦ scalar_too_short line short
  | inr long ↦ scalar_long line v (ltb→le _ _ long)
]
