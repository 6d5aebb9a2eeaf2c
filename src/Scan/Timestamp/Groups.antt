-- ===== src/Scan/Timestamp/Groups.antt =====
-- The optional groups of the timestamp pattern (crates/core/src/simd_scan.rs) as functions from a
-- suffix of the line to what is left of it, and the pattern's own reading.
use pg_plansight.Prelude.{
  ℕ, ◌≡◌, refl, ◌∙◌, true, false, ◌&&◌, ◌||◌, Option, none, some, List, [], ◌∷◌, ◌++◌, arith, leb,
  ◌==◌, if◌then◌else◌, drop,
}
use pg_plansight.Scan.Verdict.{is_ascii_digit, is_ascii_uppercase}
use pg_plansight.Scan.Regex.{
  Regex, seq, alt, rests, first, or_else, up_to, run_length, first-optional, first-class,
  first-up_to, byte, digit, upper, fraction, minutes, offset, letters, zone,
}

unfoldable pub after_fraction : List ℕ → List ℕ
after_fraction [] = []
after_fraction (b ∷ s) =
    if b == b'.'
    then (let n = run_length is_ascii_digit 6 s in if leb 1 n then drop n s else b ∷ s)
    else b ∷ s

unfoldable pub skip_colon : List ℕ → List ℕ
skip_colon [] = []
skip_colon (b ∷ s) = if b == b':' then s else b ∷ s

unfoldable pub two_digits : List ℕ → List ℕ → List ℕ
two_digits whole [] = whole
two_digits whole (x ∷ []) = whole
two_digits whole (x ∷ y ∷ s) = if is_ascii_digit x && is_ascii_digit y then s else whole

unfoldable pub after_minutes : List ℕ → List ℕ
unfolding two_digits skip_colon
after_minutes s = two_digits s (skip_colon s)

-- After the sign; `whole` is the suffix that stays if the group fails.
unfoldable pub after_sign : List ℕ → List ℕ → List ℕ
after_sign whole [] = whole
after_sign whole (a ∷ []) = whole
after_sign whole (a ∷ b ∷ s) =
    if is_ascii_digit a && is_ascii_digit b then after_minutes s else whole

unfoldable pub after_space : List ℕ → List ℕ → List ℕ
after_space whole [] = whole
after_space whole (c ∷ s) =
    if is_ascii_uppercase c
    then (let n = run_length is_ascii_uppercase 5 (c ∷ s) in
        if leb 2 n then drop n (c ∷ s) else whole)
    else if c == b'+' || c == b'-'
    then after_sign whole s
    else whole

unfoldable pub after_zone : List ℕ → List ℕ
after_zone [] = []
after_zone (b ∷ s) = if b == 0x20 then after_space (b ∷ s) s else b ∷ s

pub first-fraction : (s : List ℕ) → first (rests fraction s) ≡ some (after_fraction s)
unfolding after_fraction
first-fraction [] = refl
first-fraction (b ∷ []) =
    first-optional (seq (byte b'.') (seq digit (up_to 5 digit))) (b ∷ [])
    ∙ rw (first-class (λ c. c == b'.') (seq digit (up_to 5 digit)) b []) (ground arith)
first-fraction (b ∷ d ∷ s) =
    first-optional (seq (byte b'.') (seq digit (up_to 5 digit))) (b ∷ d ∷ s)
    ∙ rw
        (
          first-class (λ c. c == b'.') (seq digit (up_to 5 digit)) b (d ∷ s),
          first-class is_ascii_digit (up_to 5 digit) d s,
          first-up_to is_ascii_digit 5 s,
        )
        (ground arith)

not_colon : (b : ℕ) → (b == b':') ≡ true → is_ascii_digit b ≡ false
not_colon b h = ground arith

pub first-minutes : (s : List ℕ) → first (rests minutes s) ≡ some (after_minutes s)
unfolding after_minutes
first-minutes [] = refl
first-minutes (b ∷ []) = ground arith
first-minutes (b ∷ x ∷ []) = ground arith
first-minutes (b ∷ x ∷ y ∷ s) = ground arith

abbrev or_first : Option (List ℕ) → Option (List ℕ) → Option (List ℕ)
or_first none o = o
or_first (some s) o = some s

first-alt :
    (r q : Regex) (s : List ℕ)
    → first (rests (alt r q) s) ≡ or_first (first (rests r s)) (first (rests q s))
first-alt r q s = go (rests r s) (rests q s)
  where
    go : (xs ys : List (List ℕ)) → first (xs ++ ys) ≡ or_first (first xs) (first ys)
    go [] ys = refl
    go (x ∷ xs) ys = refl

abbrev two_letters : List ℕ → Option (List ℕ)
two_letters [] = none
two_letters (c ∷ s) =
    if is_ascii_uppercase c then some (drop (run_length is_ascii_uppercase 3 s) s) else none

first-letters :
    (c : ℕ) (s : List ℕ)
    → first (rests letters (c ∷ s)) ≡ (if is_ascii_uppercase c then two_letters s else none)
first-letters c [] = first-class is_ascii_uppercase (seq upper (up_to 3 upper)) c []
first-letters c (e ∷ s) =
    first-class is_ascii_uppercase (seq upper (up_to 3 upper)) c (e ∷ s)
    ∙ rw (first-class is_ascii_uppercase (up_to 3 upper) e s, first-up_to is_ascii_uppercase 3 s)

abbrev signed : List ℕ → Option (List ℕ)
signed [] = none
signed (a ∷ []) = none
signed (a ∷ b ∷ s) = if is_ascii_digit a && is_ascii_digit b then some (after_minutes s) else none

first-signed : (s : List ℕ) → first (rests (seq digit (seq digit minutes)) s) ≡ signed s
first-signed [] = refl
first-signed (a ∷ []) = first-class is_ascii_digit (seq digit minutes) a [] ∙ ground arith
first-signed (a ∷ b ∷ s) =
    first-class is_ascii_digit (seq digit minutes) a (b ∷ s)
    ∙ rw (first-class is_ascii_digit minutes b s, first-minutes s) (ground arith)

first-offset :
    (c : ℕ) (s : List ℕ)
    → first (rests offset (c ∷ s)) ≡ (if c == b'+' || c == b'-' then signed s else none)
first-offset c s =
    first-class (λ b. b == b'+' || b == b'-') (seq digit (seq digit minutes)) c s
    ∙ rw (first-signed s)

first-after_space :
    (whole : List ℕ) (c : ℕ) (s : List ℕ)
    → or_else (first (rests (alt letters offset) (c ∷ s))) whole ≡ after_space whole (c ∷ s)
unfolding after_space after_sign
first-after_space whole c [] =
    rw (first-alt letters offset (c ∷ []), first-letters c [], first-offset c []) (ground arith)
first-after_space whole c (a ∷ []) =
    rw (first-alt letters offset (c ∷ a ∷ []), first-letters c (a ∷ []), first-offset c (a ∷ []))
      (ground arith)
first-after_space whole c (a ∷ b ∷ s) =
    rw
      (
        first-alt letters offset (c ∷ a ∷ b ∷ s),
        first-letters c (a ∷ b ∷ s),
        first-offset c (a ∷ b ∷ s),
      )
      (ground arith)

pub first-zone : (s : List ℕ) → first (rests zone s) ≡ some (after_zone s)
unfolding after_zone after_space
first-zone [] = refl
first-zone (b ∷ []) =
    first-optional (seq (byte 0x20) (alt letters offset)) (b ∷ [])
    ∙ rw (first-class (λ c. c == 0x20) (alt letters offset) b []) (ground arith)
first-zone (b ∷ c ∷ s) =
    first-optional (seq (byte 0x20) (alt letters offset)) (b ∷ c ∷ s)
    ∙ rw (first-class (λ c. c == 0x20) (alt letters offset) b (c ∷ s))
        (ground (arith, first-after_space (b ∷ c ∷ s) c s))
