-- ===== src/Prelude/Weights.antt =====
-- The weight of a map: what its values weigh together.
-- keys: bytes_key
use pg_plansight.Prelude.{
  ℕ, ◌+◌, ◌≡◌, inl, inr, Option, none, some, List, [], ◌∷◌, arith, Bool-cases, Eq, lookup, put,
}

abbrev pub weight_found {ℓ} : {V : Type ℓ} → (V → ℕ) → Option V → ℕ
weight_found weigh none = 0
weight_found weigh (some v) = weigh v

module _ {ℓ κ} {K : Type ℓ} {V : Type κ} (weigh : V → ℕ) where
  abbrev pub weight : List (K × V) → ℕ
  weight [] = 0
  weight (entry ∷ m) = weigh entry.1 + weight m

  -- A new value adds what it weighs, and takes away what the value that it replaces weighed.
  pub weight-put :
      ⦃e : Eq K⦄ (k : K) (v : V) (m : List (K × V))
      → weight (put k v m) + weight_found weigh (lookup k m) ≡ weight m + weigh v
  unfolding lookup put
  weight-put k v [] = omega arith
  weight-put ⦃e = e⦄ k v ((j, w) ∷ m) =
      let ih = weight-put k v m in
      elim (Bool-cases (e.beq j k)) [
        | inl same ↦ rw same (omega arith)
        | inr other ↦ rw other (omega (arith, ih))
      ]
