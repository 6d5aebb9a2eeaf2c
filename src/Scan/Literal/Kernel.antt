-- ===== src/Scan/Literal/Kernel.antt =====
-- The block-wise literal search (crates/core/src/simd_scan.rs) finds what the byte loop finds.
use pg_plansight.Prelude.{
  ℕ, zero, suc, ◌+◌, ◌-◌, ◌*◌, ◌≤◌, ◌<◌, ◌≡◌, refl, sym, ap, ap₂, ◌∙◌, ◌⊎◌, inl, inr, Bool, true,
  false, ◌&&◌, ◌||◌, Option, none, some, List, [], ◌∷◌, arith, ltb, leb, ◌==◌, if◌then◌else◌,
  ltb→lt, ltb→le, leb→le, ≢→==, Bool-cases, length, take, drop, replicate, length-take, length-drop,
  drop-add, bytes_eq,
}
use mathlib.Core.Option
use native.Mathlib.Nat.{zero-add}
use pg_plansight.Scan.Verdict.{Simd, block, zip_with, bits_value, any}
use pg_plansight.Scan.Timestamp.{byte_at}
use pg_plansight.Scan.Whitespace.Blanks.{byte_at-drop, drop-byte_at}
use pg_plansight.Scan.Literal.{
  matches_at, first_byte, last_byte, candidate, find_from, find_literal_scalar, is_empty, try_lanes,
  candidates, find_blocks, find_literal_simd,
}
use pg_plansight.Scan.Literal.Bits.{shifted, clear_lowest, count_zeros-shifted, shifted-ne-zero}

-- The first set lane at whose position the test holds.
abbrev pub search : (ℕ → Bool) → List Bool → ℕ → Option ℕ
search t [] o = none
search t (c ∷ cs) o = let rest = search t cs (suc o) in if c && t o then some o else rest

shifted-double : (j x : ℕ) → shifted j (2 * x) ≡ shifted (suc j) x
shifted-double zero x = refl
shifted-double (suc j) x = ap (λ y. 2 * y) (shifted-double j x)

shifted-zero : (j : ℕ) → shifted j 0 ≡ 0
shifted-zero zero = refl
shifted-zero (suc j) = omega (arith, shifted-zero j)

-- The loop over the set lanes of a mask.
try_lanes-search :
    (h n : List ℕ) (o fuel j : ℕ) (ms : List Bool)
    → length ms < fuel
    → j + length ms ≤ 64
    → try_lanes fuel h n o (shifted j (bits_value ms)) ≡ search (matches_at h n) ms (o + j)
unfolding try_lanes
try_lanes-search h n o zero j ms f l = absurd (omega arith)
try_lanes-search h n o (suc fuel) j [] f l = rw (shifted-zero j)
try_lanes-search h n o (suc fuel) j (false ∷ ms) f l =
    rw (zero-add, shifted-double j (bits_value ms))
      (try_lanes-search h n o (suc fuel) (suc j) ms (omega arith) (omega arith)
        ∙ ap (search (matches_at h n) ms) (omega arith))
try_lanes-search h n o (suc fuel) j (true ∷ ms) f l =
    rw
      (
        ≢→== (shifted j (1 + 2 * bits_value ms)) 0 (shifted-ne-zero j (bits_value ms)),
        count_zeros-shifted j (bits_value ms) 64 (omega arith),
        clear_lowest j (bits_value ms),
      )
      (ap (λ r. if matches_at h n (o + j) then some (o + j) else r)
        (try_lanes-search h n o fuel (suc j) ms (omega arith) (omega arith)
          ∙ ap (search (matches_at h n) ms) (omega arith)))

search-none :
    (t : ℕ → Bool) (ms : List Bool) (o : ℕ) → any (λ b. b) ms ≡ false → search t ms o ≡ none
search-none t [] o e = refl
search-none t (false ∷ ms) o e = search-none t ms (suc o) e
search-none t (true ∷ ms) o e = cc

-- The lanes of one block.
abbrev pub hits : List ℕ → List ℕ → ℕ → ℕ → List Bool
hits h n o r =
    zip_with ◌&&◌ (zip_with ◌==◌ (take r (drop o h)) (replicate r (first_byte n)))
      (zip_with ◌==◌ (take r (drop (o + length n - 1) h)) (replicate r (last_byte n)))

-- They are searched as the byte loop goes through their positions.
search-hits :
    (h n : List ℕ) (r o : ℕ)
    → 0 < length n
    → o + r + length n ≤ length h + 1
    → search (matches_at h n) (hits h n o r) o ≡ find_from r h n o
unfolding zip_with replicate find_from
search-hits h n zero o p l = refl
search-hits h n (suc r) o p l =
    rw
      (
        drop-byte_at h o (omega arith),
        drop-byte_at h (o + length n - 1) (omega arith),
        next_last o (length n) p,
        next o,
        search-hits h n r (suc o) p (omega arith),
      )
      (regroup (byte_at h o == first_byte n) (byte_at h (o + length n - 1) == last_byte n)
        (matches_at h n o) (bytes_eq (take (length n) (byte_at h o ∷ drop (suc o) h)) n) (some o)
        (find_from r h n (suc o))
        (ap (λ d. bytes_eq (take (length n) d) n) (drop-byte_at h o (omega arith))))
  where
    next : (o : ℕ) → o + 1 ≡ suc o
    next o = omega arith

    next_last : (o k : ℕ) → 0 < k → suc (o + k - 1) ≡ suc o + k - 1
    next_last o k p = omega arith

    regroup :
        (a b c c' : Bool) (x y : Option ℕ)
        → c ≡ c'
        → (if (a && b) && c then x else y) ≡ (if a && (b && c') then x else y)
    regroup a b c c' x y e = ground arith

abbrev or_find : Option ℕ → Option ℕ → Option ℕ
or_find found rest = elim found [ none ↦ rest | some start ↦ some start ]

find_from-add :
    (h n : List ℕ) (a b i : ℕ)
    → find_from (a + b) h n i ≡ or_find (find_from a h n i) (find_from b h n (i + a))
unfolding find_from
find_from-add h n zero b i = rw zero-add (ap (find_from b h n) (omega arith))
find_from-add h n (suc a) b i =
    rw (suc_add a b, find_from-add h n a b (i + 1), shift i a)
      (choose (candidate h n i) (find_from a h n (i + 1)) (find_from b h n (i + suc a)))
  where
    suc_add : (a b : ℕ) → suc a + b ≡ suc (a + b)
    suc_add a b = omega arith

    shift : (i a : ℕ) → i + 1 + a ≡ i + suc a
    shift i a = omega arith

    choose :
        (c : Bool) (x y : Option ℕ)
        → (if c then some i else or_find x y) ≡ or_find (if c then some i else x) y
    choose true x y = refl
    choose false x y = refl

candidate-drop :
    (h n : List ℕ) (o i : ℕ) → 0 < length n → candidate (drop o h) n i ≡ candidate h n (o + i)
candidate-drop h n o i p = rw (
  byte_at-drop h o i,
  byte_at-drop h o (i + length n - 1),
  ← drop-add h o i,
  assoc o i (length n) p,
)
  where
    assoc : (o i k : ℕ) → 0 < k → o + (i + k - 1) ≡ o + i + k - 1
    assoc o i k p = omega arith

find_from-drop :
    (h n : List ℕ) (o r i : ℕ)
    → 0 < length n
    → Option.map (λ k. o + k) (find_from r (drop o h) n i) ≡ find_from r h n (o + i)
unfolding find_from
find_from-drop h n o zero i p = refl
find_from-drop h n o (suc r) i p = rw (candidate-drop h n o i p) (
    choose (candidate h n (o + i)) (find_from r (drop o h) n (i + 1))
    ∙ ap (λ x. if candidate h n (o + i) then some (o + i) else x)
        (find_from-drop h n o r (i + 1) p ∙ ap (find_from r h n) (omega arith)))
  where
    choose :
        (c : Bool) (x : Option ℕ)
        → Option.map (λ k. o + k) (if c then some i else x)
          ≡ (if c then some (o + i) else Option.map (λ k. o + k) x)
    choose true x = refl
    choose false x = refl

not_empty : (n : List ℕ) → is_empty n ≡ false → 0 < length n
not_empty [] e = cc
not_empty (b ∷ bs) e = omega arith

bits-candidates :
    (s : Simd) (h n : List ℕ) (o : ℕ)
    → 0 < length n
    → o + block + length n ≤ length h + 1
    → s.bits (candidates s h n o) ≡ hits h n o block
unfolding candidates
bits-candidates s h n o p l = rw (
  s.bits-and,
  s.bits-eq,
  s.bits-eq,
  s.lanes-splat (first_byte n),
  s.lanes-splat (last_byte n),
  s.lanes-from_slice (take block (drop o h))
      (omega (arith, length-take block (drop o h), length-drop o h)),
  s.lanes-from_slice (take block (drop (o + length n - 1) h)) (
      omega
        (arith, length-take block (drop (o + length n - 1) h), length-drop (o + length n - 1) h)),
)

-- One block finds what 16 rounds of the byte loop find.
block_found :
    (s : Simd) (h n : List ℕ) (o : ℕ)
    → 0 < length n
    → o + block + length n ≤ length h + 1
    → (if s.any_true (candidates s h n o)
        then try_lanes 64 h n o (s.to_bitmask (candidates s h n o))
        else none)
      ≡ find_from block h n o
block_found s h n o p l =
    rw (s.any-bits (candidates s h n o), s.to_bitmask-bits (candidates s h n o))
      (by_any (Bool-cases (any (λ b. b) (s.bits (candidates s h n o)))))
  where
    bits : List Bool
    bits = s.bits (candidates s h n o)

    searched : search (matches_at h n) bits o ≡ find_from block h n o
    searched = rw (bits-candidates s h n o p l) (search-hits h n block o p l)

    by_any :
        (any (λ b. b) bits ≡ true) ⊎ (any (λ b. b) bits ≡ false)
        → (if any (λ b. b) bits then try_lanes 64 h n o (bits_value bits) else none)
          ≡ find_from block h n o
    by_any (inl e) = rw e (
        try_lanes-search h n o 64 0 bits (omega (arith, s.length-bits (candidates s h n o)))
          (omega (arith, s.length-bits (candidates s h n o)))
        ∙ ap (search (matches_at h n) bits) (omega arith)
        ∙ searched)
    by_any (inr e) = rw e (sym (search-none (matches_at h n) bits o e) ∙ searched)

tail_search :
    (h n : List ℕ) (o : ℕ)
    → is_empty n ≡ false
    → length n ≤ length h
    → o ≤ length h - length n + 1
    → Option.map (λ k. o + k) (find_literal_scalar (drop o h) n)
      ≡ find_from (length h - length n + 1 - o) h n o
unfolding find_literal_scalar find_from
tail_search h n o e l b = elim (Bool-cases (ltb (length (drop o h)) (length n))) [
  | inl short ↦ rw (e, short) (ap (λ r. find_from r h n o) (none_left short))
  | inr long ↦
      rw (e, long)
        (find_from-drop h n o (length (drop o h) - length n + 1) 0 (not_empty n e)
          ∙ ap₂ (λ r i. find_from r h n i) (some_left long) (omega arith))
]
  where
    none_left : ltb (length (drop o h)) (length n) ≡ true → 0 ≡ length h - length n + 1 - o
    none_left short = omega (arith, ltb→lt _ _ short, length-drop o h)

    some_left :
        ltb (length (drop o h)) (length n) ≡ false
        → length (drop o h) - length n + 1 ≡ length h - length n + 1 - o
    some_left long = omega (arith, ltb→le _ _ long, length-drop o h, not_empty n e)

module _ (s : Simd) (h n : List ℕ) (e : is_empty n ≡ false) (l : length n ≤ length h) where
  find_blocks-find_from :
      (fuel o : ℕ)
      → o ≤ length h - length n + 1
      → length h - length n + 1 - o < fuel
      → find_blocks s fuel h n o ≡ find_from (length h - length n + 1 - o) h n o
  unfolding find_blocks
  find_blocks-find_from zero o b m = absurd (omega arith)
  find_blocks-find_from (suc fuel) o b m =
      elim (Bool-cases (leb (o + block) (length h - length n + 1))) [
        | inr rest ↦ rw rest (tail_search h n o e l b)
        | inl room ↦
            rw (room, block_found s h n o (not_empty n e) (omega (arith, leb→le _ _ room)))
              (ap (or_find (find_from block h n o)) (
                  find_blocks-find_from fuel (o + block) (leb→le _ _ room)
                    (omega (arith, leb→le _ _ room)))
                ∙ sym (
                    ap (λ r. find_from r h n o)
                      {y = block + (length h - length n + 1 - (o + block))}
                      (omega (arith, leb→le _ _ room))
                    ∙ find_from-add h n block (length h - length n + 1 - (o + block)) o))
      ]

-- For every vector unit whose operations act lane by lane, the block-wise search returns what the
-- byte loop returns, on every haystack and needle, within `length haystack + 1` rounds.
pub find_literal_simd-eq-scalar :
    (s : Simd) (haystack needle : List ℕ)
    → find_literal_simd s haystack needle ≡ find_literal_scalar haystack needle
unfolding find_literal_simd find_literal_scalar
find_literal_simd-eq-scalar s h n = by_guard (is_empty n) (ltb (length h) (length n)) refl refl
  where
    by_guard :
        (c d : Bool)
        → is_empty n ≡ c
        → ltb (length h) (length n) ≡ d
        → (if c || d then none else find_blocks s (suc (length h)) h n 0)
          ≡ (if c || d then none else find_from (length h - length n + 1) h n 0)
    by_guard true d e f = refl
    by_guard false true e f = refl
    by_guard false false e f =
        find_blocks-find_from s h n e (ltb→le _ _ f) (suc (length h)) 0 (omega arith)
          (omega (arith, not_empty n e, ltb→le _ _ f))
        ∙ ap (λ r. find_from r h n 0) (omega arith)
