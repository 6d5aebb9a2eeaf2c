-- ===== src/Scan/Literal/First.antt =====
-- What the byte-wise literal search of crates/core/src/simd_scan.rs finds.
use pg_plansight.Prelude.{
  ℕ, zero, suc, ◌+◌, ◌-◌, ◌≤◌, ◌<◌, ◌≡◌, sym, ap, subst, ◌∙◌, inl, inr, Bool, true, false, Option,
  none, some, List, [], ◌∷◌, arith, ltb, ltb→lt, ltb→le, ≡→==, Bool-cases, &&_true, length, take,
  drop, bytes_eq_sound, bytes_eq_refl,
}
use native.Mathlib.Decide.{dec_lt}
use pg_plansight.Scan.Timestamp.{byte_at}
use pg_plansight.Scan.Whitespace.Blanks.{byte_at-drop, byte_at-take}
use pg_plansight.Scan.Literal.{first_byte, last_byte, candidate, find_from, find_literal_scalar}

-- The needle stands in the haystack at `i`.
abbrev pub Occurs : List ℕ → List ℕ → ℕ → Type 0
Occurs haystack needle i = take (length needle) (drop i haystack) ≡ needle

candidate-Occurs : (h n : List ℕ) (i : ℕ) → candidate h n i ≡ true → Occurs h n i
candidate-Occurs h n i e = bytes_eq_sound _ n (&&_true _ _ (&&_true _ _ e).1).1

Occurs-byte_at :
    (h n : List ℕ) (i k : ℕ) → Occurs h n i → k < length n → byte_at h (i + k) ≡ byte_at n k
Occurs-byte_at h n i k o l =
    sym (byte_at-take (drop i h) (length n) k l ∙ byte_at-drop h i k) ∙ ap (λ bs. byte_at bs k) o

-- The test of the first and the last byte turns no occurrence away.
Occurs-candidate : (h n : List ℕ) (i : ℕ) → 0 < length n → Occurs h n i → candidate h n i ≡ true
Occurs-candidate h n i p o = rw (o, bytes_eq_refl n, ≡→== _ _ first_same, ≡→== _ _ last_same)
  where
    first_same : byte_at h i ≡ first_byte n
    first_same = ap (byte_at h) (omega arith) ∙ Occurs-byte_at h n i 0 o p

    last_same : byte_at h (i + length n - 1) ≡ last_byte n
    last_same = ap (byte_at h) (omega arith) ∙ Occurs-byte_at h n i (length n - 1) o (omega arith)

-- The first of `r` positions from `i` on at which the needle stands.
abbrev pub FirstIn : List ℕ → List ℕ → ℕ → ℕ → Option ℕ → Type 0
FirstIn h n i r none = (j : ℕ) → i ≤ j → j < i + r → ¬ (Occurs h n j)
FirstIn h n i r (some k) =
    (i ≤ k) × (k < i + r) × Occurs h n k × ((j : ℕ) → i ≤ j → j < k → ¬ (Occurs h n j))

FirstIn-hit : (h n : List ℕ) (i r : ℕ) → Occurs h n i → FirstIn h n i (suc r) (some i)
FirstIn-hit h n i r o = (omega arith, omega arith, o, λ j a b. absurd (omega arith))

FirstIn-miss :
    (h n : List ℕ) (i r : ℕ) (found : Option ℕ)
    → ¬ (Occurs h n i)
    → FirstIn h n (i + 1) r found
    → FirstIn h n i (suc r) found
FirstIn-miss h n i r none no_hit f = λ j a b. at j a b (dec_lt i j)
  where
    at : (j : ℕ) → i ≤ j → j < i + suc r → Dec (i < j) → ¬ (Occurs h n j)
    at j a b (yes l) = f j (omega arith) (omega arith)
    at j a b (no l) = subst (λ x. ¬ (Occurs h n x)) {x = i} {y = j} (omega arith) no_hit
FirstIn-miss h n i r (some k) no_hit f =
    (omega (arith, f.0), omega (arith, f.1), f.2, λ j a b. at j a b (dec_lt i j))
  where
    at : (j : ℕ) → i ≤ j → j < k → Dec (i < j) → ¬ (Occurs h n j)
    at j a b (yes l) = f.3 j (omega arith) b
    at j a b (no l) = subst (λ x. ¬ (Occurs h n x)) {x = i} {y = j} (omega arith) no_hit

find_from-FirstIn : (h n : List ℕ) (r i : ℕ) → 0 < length n → FirstIn h n i r (find_from r h n i)
unfolding find_from
find_from-FirstIn h n zero i p = λ j a b. absurd (omega arith)
find_from-FirstIn h n (suc r) i p = elim (Bool-cases (candidate h n i)) [
  | inl e ↦ rw e (FirstIn-hit h n i r (candidate-Occurs h n i e))
  | inr e ↦ rw e (
      FirstIn-miss h n i r _ (λ o. clash (Occurs-candidate h n i p o) e)
        (find_from-FirstIn h n r (i + 1) p))
]
  where
    clash : {c : Bool} → c ≡ true → c ≡ false → ⊥
    clash t f = cc

-- What a search promises: the least position at which a needle that is not empty stands wholly in
-- the haystack, or that there is none.
abbrev pub Finds : List ℕ → List ℕ → Option ℕ → Type 0
Finds h n none = (j : ℕ) → j + length n ≤ length h → ¬ (Occurs h n j)
Finds h n (some k) = (k + length n ≤ length h) × Occurs h n k × ((j : ℕ) → j < k → ¬ (Occurs h n j))

Finds-of_FirstIn :
    (h n : List ℕ) (found : Option ℕ)
    → length n ≤ length h
    → FirstIn h n 0 (length h - length n + 1) found
    → Finds h n found
Finds-of_FirstIn h n none l f = λ j b. f j (omega arith) (omega arith)
Finds-of_FirstIn h n (some k) l f = (omega (arith, f.1), f.2, λ j b. f.3 j (omega arith) b)

-- The byte loop finds the first occurrence of a needle that is not empty, and nothing exactly when
-- there is none.
pub find_literal_scalar-Finds :
    (haystack needle : List ℕ)
    → 0 < length needle
    → Finds haystack needle (find_literal_scalar haystack needle)
unfolding find_literal_scalar
find_literal_scalar-Finds h [] p = absurd (omega arith)
find_literal_scalar-Finds h (b ∷ n) p = elim (Bool-cases (ltb (length h) (length (b ∷ n)))) [
  | inl short ↦ rw short (λ j l. absurd (omega (arith, ltb→lt _ _ short)))
  | inr long ↦ rw long (
      Finds-of_FirstIn h (b ∷ n) _ (ltb→le _ _ long)
        (find_from-FirstIn h (b ∷ n) (length h - length (b ∷ n) + 1) 0 p))
]
