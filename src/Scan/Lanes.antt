-- ===== src/Scan/Lanes.antt =====
-- Laws of the lane-wise operations that the kernels of crates/core/src/simd_scan.rs combine.
use pg_plansight.Prelude.{
  ℕ, zero, suc, ◌≤◌, ◌<◌, min, ◌≡◌, refl, ap, Bool, true, false, ◌&&◌, ◌||◌, not, List, [], ◌∷◌,
  arith, leb, &&_true, length, take, drop,
}
use Prim.Native.Nat.{bit_or}
use pg_plansight.Scan.Verdict.{is_ascii_digit, wrapping_sub, zip_with, any, all}

pub &&_assoc_swap : (a b c d : Bool) → ((a && b) && (c && d)) ≡ ((a && c) && (b && d))
&&_assoc_swap a b c d = ground arith

pub all-zip_with-&& :
    (xs ys : List Bool)
    → length xs ≡ length ys
    → all (λ b. b) (zip_with ◌&&◌ xs ys) ≡ (all (λ b. b) xs && all (λ b. b) ys)
unfolding zip_with
all-zip_with-&& [] [] h = refl
all-zip_with-&& [] (y ∷ ys) h = absurd (omega arith)
all-zip_with-&& (x ∷ xs) [] h = absurd (omega arith)
all-zip_with-&& (x ∷ xs) (y ∷ ys) h =
    rw (all-zip_with-&& xs ys (omega arith)) (&&_assoc_swap x y (all (λ b. b) xs) (all (λ b. b) ys))

pub length-zip_with {ℓ κ μ} :
    {A : Type ℓ} {B : Type κ} {C : Type μ} (f : A → B → C) (xs : List A) (ys : List B)
    → length (zip_with f xs ys) ≡ min (length xs) (length ys)
unfolding zip_with
length-zip_with f [] ys = omega arith
length-zip_with f (x ∷ xs) [] = omega arith
length-zip_with f (x ∷ xs) (y ∷ ys) = omega (arith, length-zip_with f xs ys)

-- Two windows that overlap and cover a list test all of it.
module _ {ℓ} {A : Type ℓ} (p : A → Bool) where
  all_covers : (xs : List A) (n m : ℕ) → m ≤ n → (all p (take n xs) && all p (drop m xs)) ≡ all p xs
  all_covers xs zero zero h = refl
  all_covers xs zero (suc m) h = absurd (omega arith)
  all_covers [] (suc n) zero h = refl
  all_covers [] (suc n) (suc m) h = refl
  all_covers (x ∷ xs) (suc n) zero h = ground (arith, all_covers xs n zero (omega arith))
  all_covers (x ∷ xs) (suc n) (suc m) h = ground (arith, all_covers xs n m (omega arith))

  any_covers : (xs : List A) (n m : ℕ) → m ≤ n → (any p (take n xs) || any p (drop m xs)) ≡ any p xs
  any_covers xs zero zero h = refl
  any_covers xs zero (suc m) h = absurd (omega arith)
  any_covers [] (suc n) zero h = refl
  any_covers [] (suc n) (suc m) h = refl
  any_covers (x ∷ xs) (suc n) zero h = ground (arith, any_covers xs n zero (omega arith))
  any_covers (x ∷ xs) (suc n) (suc m) h = ground (arith, any_covers xs n m (omega arith))

pub all-take-drop {ℓ} :
    {A : Type ℓ} (p : A → Bool) (xs : List A) (n m : ℕ)
    → m ≤ n
    → (all p (take n xs) && all p (drop m xs)) ≡ all p xs
all-take-drop p xs n m h = all_covers p xs n m h

pub any-take-drop {ℓ} :
    {A : Type ℓ} (p : A → Bool) (xs : List A) (n m : ℕ)
    → m ≤ n
    → (any p (take n xs) || any p (drop m xs)) ≡ any p xs
any-take-drop p xs n m h = any_covers p xs n m h

pub zip_with-take {ℓ κ μ} :
    {A : Type ℓ} {B : Type κ} {C : Type μ} (f : A → B → C) (xs : List A) (ys : List B) (n : ℕ)
    → zip_with f (take n xs) (take n ys) ≡ take n (zip_with f xs ys)
unfolding zip_with
zip_with-take f xs ys zero = refl
zip_with-take f [] ys (suc n) = refl
zip_with-take f (x ∷ xs) [] (suc n) = refl
zip_with-take f (x ∷ xs) (y ∷ ys) (suc n) = ap (◌∷◌ (f x y)) (zip_with-take f xs ys n)

zip_with-nil {ℓ κ μ} :
    {A : Type ℓ} {B : Type κ} {C : Type μ} (f : A → B → C) (xs : List A) → zip_with f xs [] ≡ []
unfolding zip_with
zip_with-nil f [] = refl
zip_with-nil f (x ∷ xs) = refl

pub zip_with-drop {ℓ κ μ} :
    {A : Type ℓ} {B : Type κ} {C : Type μ} (f : A → B → C) (xs : List A) (ys : List B) (n : ℕ)
    → zip_with f (drop n xs) (drop n ys) ≡ drop n (zip_with f xs ys)
unfolding zip_with
zip_with-drop f xs ys zero = refl
zip_with-drop f [] ys (suc n) = refl
zip_with-drop f (x ∷ xs) [] (suc n) = zip_with-nil f (drop n xs)
zip_with-drop f (x ∷ xs) (y ∷ ys) (suc n) = zip_with-drop f xs ys n

-- A test of all the values of a lane, from the largest down.
holds_to : (test : ℕ → Bool) (bound : ℕ) → Bool
holds_to test zero = true
holds_to test (suc b) = holds_to test b && test b

holds_to_sound :
    (test : ℕ → Bool) (bound : ℕ) → holds_to test bound ≡ true → (v : ℕ) → v < bound → test v ≡ true
unfolding holds_to
holds_to_sound test zero each v below = absurd (omega arith)
holds_to_sound test (suc b) each v below =
    ground (arith, holds_to_sound test b (&&_true _ _ each).0 v, each)

abbrev same : Bool → Bool → Bool
same true b = b
same false b = not b

same→≡ : (a b : Bool) → same a b ≡ true → a ≡ b
same→≡ a b h = ground arith

bit_or_table :
    holds_to (λ x. holds_to (λ y. same (leb 0x80 (bit_or x y)) (leb 0x80 x || leb 0x80 y)) 256) 256
    ≡ true
unfolding holds_to
bit_or_table = refl

-- The high bit of a disjunction.
pub bit_or_high : (x y : ℕ) → x < 256 → y < 256 → leb 0x80 (bit_or x y) ≡ (leb 0x80 x || leb 0x80 y)
bit_or_high x y hx hy =
    same→≡ _ _ (holds_to_sound _ 256 (holds_to_sound _ 256 bit_or_table x hx) y hy)

pub digit_by_sub : (b : ℕ) → b < 256 → leb (wrapping_sub b b'0') 9 ≡ is_ascii_digit b
digit_by_sub b h = ground arith
