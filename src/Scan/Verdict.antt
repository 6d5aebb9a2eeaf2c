-- ===== src/Scan/Verdict.antt =====
-- Shared by the scanners of crates/core/src/simd_scan.rs: the verdict of a shape check, the tests
-- on bytes, and the vectors of 16 lanes.
use pg_plansight.Prelude.{
  ℕ, ◌+◌, ◌-◌, ◌*◌, ◌%◌, ◌<◌, min, ◌≡◌, Bool, true, false, ◌&&◌, ◌||◌, List, [], ◌∷◌, ltb, leb,
  ◌==◌, if◌then◌else◌, length, replicate,
}
use Prim.Native.Nat.{bit_or}

-- A line is the list of its bytes.
abbrev pub Bytes : List ℕ → Type 0
Bytes [] = Unit
Bytes (b ∷ bs) = (b < 256) × Bytes bs

pub data Verdict : Type 0 where
  matched : ℕ → Verdict
  no_match : Verdict
  unsure : Verdict

abbrev pub block : ℕ
block = 16

-- `u8::is_ascii`, `u8::is_ascii_digit`, `u8::is_ascii_uppercase`.
abbrev pub is_ascii : ℕ → Bool
is_ascii b = ltb b 128

abbrev pub is_ascii_digit : ℕ → Bool
is_ascii_digit b = leb b'0' b && leb b b'9'

abbrev pub is_ascii_uppercase : ℕ → Bool
is_ascii_uppercase b = leb b'A' b && leb b b'Z'

-- `u8` subtraction that wraps.
abbrev pub wrapping_sub : ℕ → ℕ → ℕ
wrapping_sub a b = (a + 256 - b) % 256

unfoldable pub zip_with {ℓ κ μ} :
    {A : Type ℓ} {B : Type κ} {C : Type μ} → (A → B → C) → List A → List B → List C
zip_with f [] ys = []
zip_with f (x ∷ xs) [] = []
zip_with f (x ∷ xs) (y ∷ ys) = f x y ∷ zip_with f xs ys

-- The lanes of `t` where `m` is set, and those of `f` elsewhere.
unfoldable pub choose_lanes {ℓ} : {A : Type ℓ} → List Bool → List A → List A → List A
choose_lanes (c ∷ cs) (t ∷ ts) (f ∷ fs) = (if c then t else f) ∷ choose_lanes cs ts fs
choose_lanes _ _ _ = []

abbrev pub any {ℓ} : {A : Type ℓ} → (A → Bool) → List A → Bool
any p [] = false
any p (x ∷ xs) = p x || any p xs

abbrev pub all {ℓ} : {A : Type ℓ} → (A → Bool) → List A → Bool
all p [] = true
all p (x ∷ xs) = p x && all p xs

-- The number of which the set lanes are the binary digits, lane 0 the lowest.
abbrev pub bits_value : List Bool → ℕ
bits_value [] = 0
bits_value (b ∷ bs) = (if b then 1 else 0) + 2 * bits_value bs

abbrev pub minimum : List ℕ → ℕ
minimum [] = 255
minimum (b ∷ bs) = min b (minimum bs)

-- The operations that the kernels take from the `fearless_simd` crate, by what its documentation
-- says of each: they act lane by lane.
pub record Simd : Type 1 where
  pub U8x16 : Type 0
  pub Mask8x16 : Type 0
  pub lanes : U8x16 → List ℕ
  pub bits : Mask8x16 → List Bool
  pub from_slice : List ℕ → U8x16
  pub from_mask : List Bool → Mask8x16
  pub splat : ℕ → U8x16
  pub sub : U8x16 → U8x16 → U8x16
  pub or : U8x16 → U8x16 → U8x16
  pub simd_eq : U8x16 → U8x16 → Mask8x16
  pub simd_le : U8x16 → U8x16 → Mask8x16
  pub simd_ge : U8x16 → U8x16 → Mask8x16
  pub and_mask : Mask8x16 → Mask8x16 → Mask8x16
  pub or_mask : Mask8x16 → Mask8x16 → Mask8x16
  pub select_mask : Mask8x16 → Mask8x16 → Mask8x16 → Mask8x16
  pub select : Mask8x16 → U8x16 → U8x16 → U8x16
  pub reduce_min : U8x16 → ℕ
  pub to_bitmask : Mask8x16 → ℕ
  pub any_true : Mask8x16 → Bool
  pub all_true : Mask8x16 → Bool
  pub lanes-from_slice : (bs : List ℕ) → length bs ≡ block → lanes (from_slice bs) ≡ bs
  pub bits-from_mask : (ms : List Bool) → length ms ≡ block → bits (from_mask ms) ≡ ms
  pub lanes-splat : (b : ℕ) → lanes (splat b) ≡ replicate block b
  pub lanes-sub : (a b : U8x16) → lanes (sub a b) ≡ zip_with wrapping_sub (lanes a) (lanes b)
  pub lanes-or : (a b : U8x16) → lanes (or a b) ≡ zip_with bit_or (lanes a) (lanes b)
  pub bits-eq : (a b : U8x16) → bits (simd_eq a b) ≡ zip_with ◌==◌ (lanes a) (lanes b)
  pub bits-le : (a b : U8x16) → bits (simd_le a b) ≡ zip_with leb (lanes a) (lanes b)
  pub bits-ge : (a b : U8x16) → bits (simd_ge a b) ≡ zip_with (λ x y. leb y x) (lanes a) (lanes b)
  pub bits-and : (m n : Mask8x16) → bits (and_mask m n) ≡ zip_with ◌&&◌ (bits m) (bits n)
  pub bits-or : (m n : Mask8x16) → bits (or_mask m n) ≡ zip_with ◌||◌ (bits m) (bits n)
  pub bits-select :
      (m t f : Mask8x16) → bits (select_mask m t f) ≡ choose_lanes (bits m) (bits t) (bits f)
  pub lanes-select :
      (m : Mask8x16) (t f : U8x16)
      → lanes (select m t f) ≡ choose_lanes (bits m) (lanes t) (lanes f)
  pub reduce_min-lanes : (a : U8x16) → reduce_min a ≡ minimum (lanes a)
  pub to_bitmask-bits : (m : Mask8x16) → to_bitmask m ≡ bits_value (bits m)
  pub length-bits : (m : Mask8x16) → length (bits m) ≡ block
  pub any-bits : (m : Mask8x16) → any_true m ≡ any (λ b. b) (bits m)
  pub all-bits : (m : Mask8x16) → all_true m ≡ all (λ b. b) (bits m)
