-- ===== src/Scan/Timestamp.antt =====
-- Part 1 of crates/core/src/simd_scan.rs: the timestamp at the start of a log line.
pub mod Kernel
pub mod Groups
pub mod Tail
pub mod Pattern
use pg_plansight.Prelude.{
  ℕ, zero, suc, ◌+◌, ◌-◌, Bool, true, false, ◌&&◌, ◌||◌, not, Option, none, some, List, [], ◌∷◌,
  map, ltb, leb, ◌==◌, if◌then◌else◌, length, get_elem?, take, drop,
}
use mathlib.Core.Option
use pg_plansight.Scan.Verdict.{
  Verdict, matched, no_match, unsure, Simd, block, is_ascii, is_ascii_digit, is_ascii_uppercase,
  any,
}

-- `b"dddd-dd-dd dd:dd:dd"`
abbrev pub ts_shape : List ℕ
ts_shape =
    b'd' ∷ b'd' ∷ b'd' ∷ b'd' ∷ b'-' ∷ b'd' ∷ b'd' ∷ b'-' ∷ b'd' ∷ b'd' ∷ 0x20 ∷ b'd' ∷ b'd' ∷ b':'
    ∷ b'd' ∷ b'd' ∷ b':' ∷ b'd' ∷ b'd' ∷ []

abbrev pub ts_core_len : ℕ
ts_core_len = length ts_shape

pub record TsWindow : Type 0 where
  pub digit_lanes : List Bool
  pub literals : List ℕ

-- A lane of -1 is set.
abbrev pub digit_lane : ℕ → Bool
digit_lane shape_byte = shape_byte == b'd'

abbrev pub literal_lane : ℕ → ℕ
literal_lane shape_byte = if shape_byte == b'd' then 0 else shape_byte

-- The lanes from `start` on, one for each of the 16 bytes of the shape there.
abbrev pub ts_window : ℕ → TsWindow
ts_window start =
    let shape = take block (drop start ts_shape) in
    record { digit_lanes = map digit_lane shape; literals = map literal_lane shape }

module _ (s : Simd) where
  open s use {
    U8x16, Mask8x16, from_slice, from_mask, splat, sub, or, simd_eq, simd_le, simd_ge, and_mask,
    select_mask, any_true, all_true,
  }

  unfoldable pub ts_window_matches : U8x16 → TsWindow → Mask8x16
  ts_window_matches b window =
      let is_digit = simd_le (sub b (splat b'0')) (splat 9) in
      let is_literal = simd_eq b (from_slice window.literals) in
      select_mask (from_mask window.digit_lanes) is_digit is_literal

  unfoldable pub ts_core_kernel : List ℕ → Verdict
  ts_core_kernel core =
      let head = from_slice (take block core) in
      let tail = from_slice (drop (ts_core_len - block) core) in
      if any_true (simd_ge (or head tail) (splat 0x80))
      then unsure
      else if all_true (
          and_mask (ts_window_matches head (ts_window 0))
            (ts_window_matches tail (ts_window (ts_core_len - block))))
      then matched ts_core_len
      else no_match

  unfoldable pub timestamp_core_simd : List ℕ → Verdict
  timestamp_core_simd line =
      if leb ts_core_len (length line) then ts_core_kernel (take ts_core_len line) else no_match

-- `line[i]`, which the callers keep in range.
abbrev pub byte_at : List ℕ → ℕ → ℕ
byte_at [] i = 0
byte_at (b ∷ bs) zero = b
byte_at (b ∷ bs) (suc i) = byte_at bs i

abbrev pub digits : List ℕ
digits = 0 ∷ 1 ∷ 2 ∷ 3 ∷ 5 ∷ 6 ∷ 8 ∷ 9 ∷ 11 ∷ 12 ∷ 14 ∷ 15 ∷ 17 ∷ 18 ∷ []

-- The `for` loop over `digits`: whether it runs to its end.
abbrev pub all_digits : List ℕ → List ℕ → Bool
all_digits line [] = true
all_digits line (i ∷ is) = if is_ascii_digit (byte_at line i) then all_digits line is else false

unfoldable pub timestamp_core_scalar : List ℕ → Verdict
timestamp_core_scalar line =
    if ltb (length line) ts_core_len
    then no_match
    else if any (λ b. not (is_ascii b)) (take ts_core_len line)
    then unsure
    else if not (all_digits line digits)
    then no_match
    else if not (byte_at line 4 == b'-')
        || (not (byte_at line 7 == b'-') || not (byte_at line 10 == 0x20))
    then no_match
    else if not (byte_at line 13 == b':') || not (byte_at line 16 == b':')
    then no_match
    else matched ts_core_len

-- The inner `while n < 6` loop: the number of digits found, or `unsure` at a byte that is not ASCII.
unfoldable pub fraction_digits : List ℕ → ℕ → ℕ → ℕ → Option ℕ
fraction_digits line pos zero n = some n
fraction_digits line pos (suc left) n =
    let rest = fraction_digits line pos left (n + 1) in
    elim (get_elem? line (pos + 1 + n)) [
      | none ↦ some n
      | some b ↦ if is_ascii_digit b then rest else if is_ascii b then some n else none
    ]

-- The `while n < 5` loop over uppercase letters.
unfoldable pub zone_letters : List ℕ → ℕ → ℕ → ℕ → ℕ
zone_letters line pos zero n = n
zone_letters line pos (suc left) n =
    let rest = zone_letters line pos left (n + 1) in
    elim (get_elem? line (pos + 1 + n)) [
      | none ↦ n
      | some b ↦ if is_ascii_uppercase b then rest else n
    ]

abbrev pub is_byte : Option ℕ → ℕ → Bool
is_byte none c = false
is_byte (some b) c = b == c

-- The two digits at `p`: the end after them, `end` without them, or `none` for `unsure`.
unfoldable pub two_digits_at : List ℕ → ℕ → ℕ → Option ℕ
two_digits_at line end p = elim (get_elem? line p) [
  | none ↦ some end
  | some x ↦ elim (get_elem? line (p + 1)) [
    | none ↦ some end
    | some y ↦
        if not (is_ascii x) || not (is_ascii y)
        then none
        else if is_ascii_digit x && is_ascii_digit y
        then some (p + 2)
        else some end
  ]
]

-- `(?::?\d{2})?` from `end` on.
unfoldable pub offset_minutes : List ℕ → ℕ → Option ℕ
offset_minutes line end =
    two_digits_at line end (if is_byte (get_elem? line end) b':' then end + 1 else end)

-- The branch of `+` and `-`.
unfoldable pub zone_offset : List ℕ → ℕ → Option ℕ
zone_offset line pos = elim (get_elem? line (pos + 2)) [
  | none ↦ some pos
  | some a ↦ elim (get_elem? line (pos + 3)) [
    | none ↦ some pos
    | some b ↦
        if not (is_ascii a) || not (is_ascii b)
        then none
        else if is_ascii_digit a && is_ascii_digit b
        then offset_minutes line (pos + 4)
        else some pos
  ]
]

-- The two optional tails, each from a position to the next; `none` stands for `unsure`.
unfoldable pub fraction_tail : List ℕ → ℕ → Option ℕ
fraction_tail line pos =
    if is_byte (get_elem? line pos) b'.'
    then Option.map (λ n. if leb 1 n then pos + (1 + n) else pos) (fraction_digits line pos 6 0)
    else some pos

abbrev pub after_letters : ℕ → ℕ → ℕ
after_letters pos n = if leb 2 n then pos + (1 + n) else pos

unfoldable pub zone_tail : List ℕ → ℕ → Option ℕ
zone_tail line pos =
    if is_byte (get_elem? line pos) 0x20
    then elim (get_elem? line (pos + 1)) [
      | none ↦ some pos
      | some c ↦
          if is_ascii_uppercase c
          then some (after_letters pos (zone_letters line pos 5 0))
          else if c == b'+' || c == b'-'
          then zone_offset line pos
          else some pos
    ]
    else some pos

abbrev pub verdict_of : Option ℕ → Verdict
verdict_of none = unsure
verdict_of (some n) = matched n

unfoldable pub timestamp_tail : List ℕ → Verdict
unfolding Option.bind
timestamp_tail line = verdict_of (Option.bind (fraction_tail line ts_core_len) (zone_tail line))

abbrev pub continue_tail : List ℕ → Verdict → Verdict
continue_tail line (matched n) = timestamp_tail line
continue_tail line no_match = no_match
continue_tail line unsure = unsure

unfoldable pub timestamp_prefix_len_simd : Simd → List ℕ → Verdict
timestamp_prefix_len_simd s line = continue_tail line (timestamp_core_simd s line)

unfoldable pub timestamp_prefix_len_scalar : List ℕ → Verdict
timestamp_prefix_len_scalar line = continue_tail line (timestamp_core_scalar line)
