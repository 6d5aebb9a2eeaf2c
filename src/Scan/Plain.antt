-- ===== src/Scan/Plain.antt =====
-- A vector unit of plain lists, for runs of the scanner models (crates/core/src/simd_scan.rs), and
-- the bytes of a text.
use pg_plansight.Prelude.{
  ℕ, zero, suc, ◌≡◌, refl, sym, ap, ◌∙◌, Bool, false, ◌&&◌, ◌||◌, List, [], ◌∷◌, arith, leb, ◌==◌,
  length, replicate, length-replicate,
}
use Prim.Native.Nat.{bit_or}
use Prim.Native.Char.{code}
use Prim.Native.String.{String}
use pg_plansight.Scan.Verdict.{
  Simd, block, wrapping_sub, zip_with, choose_lanes, any, all, bits_value, minimum,
}
use pg_plansight.Scan.Lanes.{length-zip_with}

abbrev pub codes : String → List ℕ
codes String.[] = []
codes (String.◌∷◌ c s) = code c ∷ codes s

-- A list of any length as a block: cut, or filled up.
unfoldable pub fit {ℓ} : {A : Type ℓ} → A → ℕ → List A → List A
fit a zero xs = []
fit a (suc n) [] = a ∷ fit a n []
fit a (suc n) (x ∷ xs) = x ∷ fit a n xs

pub fit_self {ℓ} : {A : Type ℓ} (a : A) (n : ℕ) (xs : List A) → length xs ≡ n → fit a n xs ≡ xs
unfolding fit
fit_self a zero [] h = refl
fit_self a zero (x ∷ xs) h = absurd (omega arith)
fit_self a (suc n) [] h = absurd (omega arith)
fit_self a (suc n) (x ∷ xs) h = ap (◌∷◌ x) (fit_self a n xs (omega arith))

pub length-fit {ℓ} : {A : Type ℓ} (a : A) (n : ℕ) (xs : List A) → length (fit a n xs) ≡ n
unfolding fit
length-fit a zero xs = refl
length-fit a (suc n) [] = ap suc (length-fit a n [])
length-fit a (suc n) (x ∷ xs) = ap suc (length-fit a n xs)

-- Lists of 16 lanes.
abbrev pub Lanes : Type 0 → Type 0
Lanes A = (xs : List A) × (length xs ≡ block)

abbrev pub zipped : {A B : Type 0} → (A → A → B) → Lanes A → Lanes A → Lanes B
zipped f a b = (zip_with f a.0 b.0, omega (arith, a.1, b.1, length-zip_with f a.0 b.0))

pub length-choose_lanes :
    {A : Type 0} (m : List Bool) (t f : List A)
    → length m ≡ length t
    → length m ≡ length f
    → length (choose_lanes m t f) ≡ length m
unfolding choose_lanes
length-choose_lanes [] t f h k = refl
length-choose_lanes (c ∷ m) [] f h k = absurd (omega arith)
length-choose_lanes (c ∷ m) (x ∷ t) [] h k = absurd (omega arith)
length-choose_lanes (c ∷ m) (x ∷ t) (y ∷ f) h k =
    ap suc (length-choose_lanes m t f (omega arith) (omega arith))

abbrev pub chosen : {A : Type 0} → Lanes Bool → Lanes A → Lanes A → Lanes A
chosen m t f = (
  choose_lanes m.0 t.0 f.0,
  length-choose_lanes m.0 t.0 f.0 (m.1 ∙ sym t.1) (m.1 ∙ sym f.1) ∙ m.1,
)

-- A vector unit that meets the documented behaviour.
abbrev pub lists : Simd
lists = record {
  U8x16 = Lanes ℕ;
  Mask8x16 = Lanes Bool;
  lanes = λ a. a.0;
  bits = λ m. m.0;
  from_slice = λ bs. (fit 0 block bs, length-fit 0 block bs);
  from_mask = λ ms. (fit false block ms, length-fit false block ms);
  splat = λ b. (replicate block b, length-replicate block b);
  sub = zipped wrapping_sub;
  or = zipped bit_or;
  simd_eq = zipped ◌==◌;
  simd_le = zipped leb;
  simd_ge = zipped (λ x y. leb y x);
  and_mask = zipped ◌&&◌;
  or_mask = zipped ◌||◌;
  select_mask = chosen;
  select = chosen;
  reduce_min = λ a. minimum a.0;
  to_bitmask = λ m. bits_value m.0;
  any_true = λ m. any (λ b. b) m.0;
  all_true = λ m. all (λ b. b) m.0;
  lanes-from_slice = λ bs h. fit_self 0 block bs h;
  bits-from_mask = λ ms h. fit_self false block ms h;
  lanes-splat = λ b. refl;
  lanes-sub = λ a b. refl;
  lanes-or = λ a b. refl;
  bits-eq = λ a b. refl;
  bits-le = λ a b. refl;
  bits-ge = λ a b. refl;
  bits-and = λ m n. refl;
  bits-or = λ m n. refl;
  bits-select = λ m t f. refl;
  lanes-select = λ m t f. refl;
  reduce_min-lanes = λ a. refl;
  to_bitmask-bits = λ m. refl;
  length-bits = λ m. m.1;
  any-bits = λ m. refl;
  all-bits = λ m. refl;
}
