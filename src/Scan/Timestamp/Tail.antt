-- ===== src/Scan/Timestamp/Tail.antt =====
-- The byte-wise tails of the timestamp (crates/core/src/simd_scan.rs) reach what the pattern's
-- groups leave.
use pg_plansight.Prelude.{
  ℕ, zero, suc, ◌+◌, ◌≤◌, ◌<◌, ◌≡◌, refl, sym, ap, subst, ◌∙◌, ◌⊎◌, inl, inr, Bool, true, false,
  ◌&&◌, ◌||◌, Option, none, some, List, [], ◌∷◌, arith, leb, ◌==◌, if◌then◌else◌, Bool-cases,
  length, get_elem?, drop, length-drop, drop-add,
}
use pg_plansight.Scan.Verdict.{is_ascii, is_ascii_digit, is_ascii_uppercase}
use pg_plansight.Scan.Regex.{run_length}
use pg_plansight.Scan.Timestamp.{
  fraction_digits, zone_letters, two_digits_at, offset_minutes, zone_offset, fraction_tail,
  zone_tail, after_letters,
}
use pg_plansight.Scan.Timestamp.Groups.{
  after_fraction, after_minutes, after_sign, after_space, after_zone, skip_colon, two_digits,
}

abbrev pub Ascii : List ℕ → Type 0
Ascii [] = Unit
Ascii (b ∷ bs) = (b < 128) × Ascii bs

-- A position in the line: at its end, or before a byte.
abbrev Here : List ℕ → ℕ → Type 0
Here line i =
    ((get_elem? line i ≡ none) × (drop i line ≡ []))
    ⊎ ((b : ℕ) × (get_elem? line i ≡ some b)
        × (drop i line ≡ b ∷ drop (suc i) line)
        × (i < length line)
        × (is_ascii b ≡ true))

here : (line : List ℕ) (i : ℕ) → Ascii line → Here line i
here [] zero v = inl (refl, refl)
here [] (suc i) v = inl (refl, refl)
here (b ∷ bs) zero v = inr (b, refl, refl, omega arith, ground arith)
here (b ∷ bs) (suc i) v = elim (here bs i v.1) [
  | inl (g, d) ↦ inl (g, d)
  | inr (c, g, d, l, a) ↦ inr (c, g, d, omega arith, a)
]

run_length-le : (p : ℕ → Bool) (k : ℕ) (s : List ℕ) → run_length p k s ≤ length s
run_length-le p zero s = omega arith
run_length-le p (suc k) [] = omega arith
run_length-le p (suc k) (b ∷ s) = ground (arith, run_length-le p k s)

fraction_digits-run :
    (line : List ℕ) (pos left n : ℕ)
    → Ascii line
    → fraction_digits line pos left n
      ≡ some (n + run_length is_ascii_digit left (drop (pos + 1 + n) line))
unfolding fraction_digits
fraction_digits-run line pos zero n v = ap some (omega arith)
fraction_digits-run line pos (suc left) n v = elim (here line (pos + 1 + n) v) [
  | inl (g, d) ↦ rw (g, fraction_digits, d) (ap some (omega arith))
  | inr (b, g, d, l, a) ↦
      rw (g, fraction_digits, d, a, fraction_digits-run line pos left (n + 1) v, next (pos + 1) n)
        (ground arith)
]
  where
    next : (p n : ℕ) → p + (n + 1) ≡ suc (p + n)
    next p n = omega arith

zone_letters-run :
    (line : List ℕ) (pos left n : ℕ)
    → Ascii line
    → zone_letters line pos left n
      ≡ n + run_length is_ascii_uppercase left (drop (pos + 1 + n) line)
unfolding zone_letters
zone_letters-run line pos zero n v = omega arith
zone_letters-run line pos (suc left) n v = elim (here line (pos + 1 + n) v) [
  | inl (g, d) ↦ rw (g, zone_letters, d) (omega arith)
  | inr (b, g, d, l, a) ↦
      rw (g, zone_letters, d, zone_letters-run line pos left (n + 1) v, next (pos + 1) n)
        (ground arith)
]
  where
    next : (p n : ℕ) → p + (n + 1) ≡ suc (p + n)
    next p n = omega arith

-- The code reaches a position of the line behind which lies what `g` leaves.
abbrev pub Reaches : List ℕ → Option ℕ → List ℕ → Type 0
Reaches line o rest = (p : ℕ) × (o ≡ some p) × (drop p line ≡ rest) × (p ≤ length line)

fraction_digits-start :
    (line : List ℕ) (pos : ℕ)
    → Ascii line
    → fraction_digits line pos 6 0 ≡ some (run_length is_ascii_digit 6 (drop (suc pos) line))
fraction_digits-start line pos v =
    fraction_digits-run line pos 6 0 v ∙ rw (at_next pos) (ap some (omega arith))
  where
    at_next : (p : ℕ) → p + 1 + 0 ≡ suc p
    at_next p = omega arith

zone_letters-start :
    (line : List ℕ) (pos : ℕ)
    → Ascii line
    → zone_letters line pos 5 0 ≡ run_length is_ascii_uppercase 5 (drop (suc pos) line)
zone_letters-start line pos v = zone_letters-run line pos 5 0 v ∙ rw (at_next pos) (omega arith)
  where
    at_next : (p : ℕ) → p + 1 + 0 ≡ suc p
    at_next p = omega arith

-- Past a byte and a run.
drop-past : (line : List ℕ) (pos n : ℕ) → drop (pos + (1 + n)) line ≡ drop n (drop (suc pos) line)
drop-past line pos n = ap (λ k. drop k line) (omega arith) ∙ drop-add line (suc pos) n

run-past :
    (p : ℕ → Bool) (k : ℕ) (line : List ℕ) (pos : ℕ)
    → pos < length line
    → pos + (1 + run_length p k (drop (suc pos) line)) ≤ length line
run-past p k line pos h =
    omega (arith, run_length-le p k (drop (suc pos) line), length-drop (suc pos) line)

pub fraction_tail-Reaches :
    (line : List ℕ) (pos : ℕ)
    → Ascii line
    → pos ≤ length line
    → Reaches line (fraction_tail line pos) (after_fraction (drop pos line))
unfolding fraction_tail after_fraction
fraction_tail-Reaches line pos v h = elim (here line pos v) [
  | inl (g, d) ↦ (pos, rw g refl, rw d refl, h)
  | inr (b, g, d, l, a) ↦ elim (Bool-cases (b == b'.')) [
    | inr other ↦ (pos, rw (g, other), rw (d, other), h)
    | inl dot ↦ elim (Bool-cases (leb 1 (run_length is_ascii_digit 6 (drop (suc pos) line)))) [
      | inl some_digit ↦ (
        pos + (1 + run_length is_ascii_digit 6 (drop (suc pos) line)),
        rw (g, dot, fraction_digits-start line pos v, some_digit),
        rw (d, dot, some_digit) (drop-past line pos _),
        run-past is_ascii_digit 6 line pos l,
      )
      | inr no_digit ↦
          (pos, rw (g, dot, fraction_digits-start line pos v, no_digit), rw (d, dot, no_digit), h)
    ]
  ]
]

next : (i : ℕ) → i + 1 ≡ suc i
next i = omega arith

drop_two : (line : List ℕ) (p : ℕ) → drop (p + 2) line ≡ drop (suc (suc p)) line
drop_two line p = ap (λ k. drop k line) {y = suc (suc p)} (omega arith)

two_digits_at-Reaches :
    (line : List ℕ) (end p : ℕ)
    → Ascii line
    → end ≤ length line
    → Reaches line (two_digits_at line end p) (two_digits (drop end line) (drop p line))
unfolding two_digits_at two_digits
two_digits_at-Reaches line end p v h = elim (here line p v) [
  | inl (g, d) ↦ (end, rw (g, two_digits_at), rw d refl, h)
  | inr (x, g, d, l, a) ↦ elim (here line (suc p) v) [
    | inl (g', d') ↦ (end, rw (g, two_digits_at, next p, g'), rw (d, d') refl, h)
    | inr (y, g', d', l', a') ↦ elim (Bool-cases (is_ascii_digit x && is_ascii_digit y)) [
      | inl both ↦ (
        p + 2,
        rw (g, two_digits_at, next p, g', a, a', both),
        rw (d, d', both) (drop_two line p),
        omega arith,
      )
      | inr other ↦ (end, rw (g, two_digits_at, next p, g', a, a', other), rw (d, d', other), h)
    ]
  ]
]

offset_minutes-Reaches :
    (line : List ℕ) (pos : ℕ)
    → Ascii line
    → pos ≤ length line
    → Reaches line (offset_minutes line pos) (after_minutes (drop pos line))
unfolding offset_minutes after_minutes skip_colon
offset_minutes-Reaches line pos v h = elim (here line pos v) [
  | inl (g, d) ↦ rw (g, d) (rw d at (two_digits_at-Reaches line pos pos v h))
  | inr (b, g, d, l, a) ↦ elim (Bool-cases (b == b':')) [
    | inr other ↦ rw (g, other, d, other) (rw d at (two_digits_at-Reaches line pos pos v h))
    | inl colon ↦
        rw (g, colon, d, colon, next pos) (rw d at (two_digits_at-Reaches line pos (suc pos) v h))
  ]
]

zone_offset-Reaches :
    (line : List ℕ) (pos : ℕ)
    → Ascii line
    → pos ≤ length line
    → Reaches line (zone_offset line pos) (after_sign (drop pos line) (drop (pos + 2) line))
unfolding zone_offset after_sign
zone_offset-Reaches line pos v h = elim (here line (pos + 2) v) [
  | inl (g, d) ↦ (pos, rw (g, zone_offset), rw d refl, h)
  | inr (x, g, d, l, a) ↦ elim (here line (suc (pos + 2)) v) [
    | inl (g', d') ↦ (pos, rw (g, zone_offset, third pos, g'), rw (d, d') refl, h)
    | inr (y, g', d', l', a') ↦ elim (Bool-cases (is_ascii_digit x && is_ascii_digit y)) [
      | inl both ↦
          rw (g, zone_offset, third pos, g', a, a', both, d, d', both)
            (rw (fourth pos) (offset_minutes-Reaches line (pos + 4) v (omega arith)))
      | inr other ↦ (pos, rw (g, zone_offset, third pos, g', a, a', other), rw (d, d', other), h)
    ]
  ]
]
  where
    third : (p : ℕ) → p + 3 ≡ suc (p + 2)
    third p = omega arith

    fourth : (p : ℕ) → suc (suc (p + 2)) ≡ p + 4
    fourth p = omega arith

after_space-upper :
    (whole : List ℕ) (c : ℕ) (s : List ℕ)
    → is_ascii_uppercase c ≡ true
    → after_space whole (c ∷ s) ≡ (
        if leb 2 (run_length is_ascii_uppercase 5 (c ∷ s))
        then drop (run_length is_ascii_uppercase 5 (c ∷ s)) (c ∷ s)
        else whole)
unfolding after_space
after_space-upper whole c s e = rw e

-- The letters of a zone abbreviation.
letters-Reaches :
    (line whole : List ℕ) (pos c : ℕ)
    → Ascii line
    → pos < length line
    → drop pos line ≡ whole
    → drop (suc pos) line ≡ c ∷ drop (suc (suc pos)) line
    → is_ascii_uppercase c ≡ true
    → Reaches line
        (some (after_letters pos (zone_letters line pos 5 0)))
        (after_space whole (drop (suc pos) line))
letters-Reaches line whole pos c v l dw d e =
    rw (zone_letters-start line pos v, letters) (reach (Bool-cases (leb 2 n)))
  where
    n : ℕ
    n = run_length is_ascii_uppercase 5 (drop (suc pos) line)

    letters :
        after_space whole (drop (suc pos) line)
        ≡ (if leb 2 n then drop n (drop (suc pos) line) else whole)
    letters =
        subst
          (λ t. after_space whole t ≡ (
            if leb 2 (run_length is_ascii_uppercase 5 t)
            then drop (run_length is_ascii_uppercase 5 t) t
            else whole))
          (sym d) (after_space-upper whole c (drop (suc (suc pos)) line) e)

    reach :
        (leb 2 n ≡ true) ⊎ (leb 2 n ≡ false)
        → Reaches line
            (some (after_letters pos n))
            (if leb 2 n then drop n (drop (suc pos) line) else whole)
    reach (inl enough) = (
      pos + (1 + n),
      rw enough,
      rw enough (drop-past line pos n),
      run-past is_ascii_uppercase 5 line pos l,
    )
    reach (inr few) = (pos, rw few, rw few dw, omega arith)

after_space-sign :
    (whole : List ℕ) (c : ℕ) (s : List ℕ)
    → is_ascii_uppercase c ≡ false
    → (c == b'+' || c == b'-') ≡ true
    → after_space whole (c ∷ s) ≡ after_sign whole s
unfolding after_space
after_space-sign whole c s low sign = rw (low, sign)

after_space-other :
    (whole : List ℕ) (c : ℕ) (s : List ℕ)
    → is_ascii_uppercase c ≡ false
    → (c == b'+' || c == b'-') ≡ false
    → after_space whole (c ∷ s) ≡ whole
unfolding after_space
after_space-other whole c s low other = rw (low, other)

-- The zone token after its space.
space-Reaches :
    (line whole : List ℕ) (pos b : ℕ)
    → Ascii line
    → get_elem? line pos ≡ some b
    → drop pos line ≡ whole
    → pos < length line
    → (b == 0x20) ≡ true
    → Reaches line (zone_tail line pos) (after_space whole (drop (suc pos) line))
unfolding zone_tail
space-Reaches line whole pos b v g dw l space = elim (here line (suc pos) v) [
  | inl (g', d') ↦ (pos, rw (g, space, next pos, g'), rw d' (dw ∙ sym (no_zone whole)), omega arith)
  | inr (c, g', d', l', a') ↦ elim (Bool-cases (is_ascii_uppercase c)) [
    | inl up ↦ rw (g, space, next pos, g', up) (letters-Reaches line whole pos c v l dw d' up)
    | inr low ↦ elim (Bool-cases (c == b'+' || c == b'-')) [
      | inl sign ↦
          rw
            (
              g,
              space,
              next pos,
              g',
              low,
              sign,
              d',
              after_space-sign whole c (drop (suc (suc pos)) line) low sign,
            )
            (rw (dw, drop_two line pos) at (zone_offset-Reaches line pos v (omega arith)))
      | inr other ↦ (
        pos,
        rw (g, space, next pos, g', low, other),
        rw (d', after_space-other whole c (drop (suc (suc pos)) line) low other) dw,
        omega arith,
      )
    ]
  ]
]
  where
    no_zone : (whole : List ℕ) → after_space whole [] ≡ whole
    no_zone whole = unfold after_space in refl

pub zone_tail-Reaches :
    (line : List ℕ) (pos : ℕ)
    → Ascii line
    → pos ≤ length line
    → Reaches line (zone_tail line pos) (after_zone (drop pos line))
unfolding zone_tail after_zone after_space
zone_tail-Reaches line pos v h = elim (here line pos v) [
  | inl (g, d) ↦ (pos, rw g refl, rw d refl, h)
  | inr (b, g, d, l, a) ↦ elim (Bool-cases (b == 0x20)) [
    | inr other ↦ (pos, rw (g, other), rw (d, other), h)
    | inl space ↦ rw (d, space) (space-Reaches line (b ∷ drop (suc pos) line) pos b v g d l space)
  ]
]
