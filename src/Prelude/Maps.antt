-- ===== src/Prelude/Maps.antt =====
-- Byte strings as keys, and association lists for hash maps.
use Prim.Native.Nat.{ℕ, suc, ◌+◌, ◌≤◌}
use mathlib.Core.Path.{◌≡◌, refl, ap, ap₂, sym, subst, ◌∙◌}
use mathlib.Core.Bool.{Bool, true, false, ◌&&◌, true≢false}
use mathlib.Core.List.{List, [], ◌∷◌, ◌++◌}
use mathlib.Core.Logic.{inl, inr}
use mathlib.Core.Option.{Option, none, some, none-ne-some}
use native.Mathlib.Omega.{arith}
use pg_plansight.Prelude.Tests.{◌==◌, if◌then◌else◌, ==→≡, &&_true, Bool-cases, if_false, if_true}
use pg_plansight.Prelude.Lists.{length}

abbrev pub bytes_eq : List ℕ → List ℕ → Bool
bytes_eq [] [] = true
bytes_eq [] (y ∷ ys) = false
bytes_eq (x ∷ xs) [] = false
bytes_eq (x ∷ xs) (y ∷ ys) = x == y && bytes_eq xs ys

pub bytes_eq_sound : (xs ys : List ℕ) → bytes_eq xs ys ≡ true → xs ≡ ys
bytes_eq_sound [] [] e = refl
bytes_eq_sound [] (y ∷ ys) e = cc
bytes_eq_sound (x ∷ xs) [] e = cc
bytes_eq_sound (x ∷ xs) (y ∷ ys) e =
    let (a, b) = &&_true (x == y) (bytes_eq xs ys) e in
    ap₂ ◌∷◌ (==→≡ x y a) (bytes_eq_sound xs ys b)

pub bytes_eq_refl : (xs : List ℕ) → bytes_eq xs xs ≡ true
bytes_eq_refl [] = refl
bytes_eq_refl (x ∷ xs) = ground (arith, bytes_eq_refl xs)

-- A test of equality for the keys of a map.
pub record Eq {ℓ} (K : Type ℓ) : Type ℓ where
  pub beq : K → K → Bool
  pub beq_sound : (a b : K) → beq a b ≡ true → a ≡ b
  pub beq_refl : (a : K) → beq a a ≡ true

pub nat_refl : (a : ℕ) → (a == a) ≡ true
nat_refl a = ground arith

instance abbrev pub nat_eq : Eq ℕ
nat_eq = record { beq = ◌==◌; beq_sound = ==→≡; beq_refl = nat_refl }

instance abbrev pub bytes_key : Eq (List ℕ)
bytes_key = record { beq = bytes_eq; beq_sound = bytes_eq_sound; beq_refl = bytes_eq_refl }

distinct {ℓ} :
    {K : Type ℓ} ⦃e : Eq K⦄ (i j k : K) → e.beq i k ≡ false → e.beq i j ≡ true → e.beq k j ≡ false
distinct ⦃e = e⦄ i j k c d = elim (Bool-cases (e.beq k j)) [
  | inl f ↦ absurd (
      true≢false (
        sym (
          subst (λ x. e.beq i x ≡ true) (e.beq_sound i j d ∙ sym (e.beq_sound k j f))
            (e.beq_refl i))
        ∙ c))
  | inr f ↦ f
]

-- The second of two equal tests decides nothing.
pub first_only {ℓ} :
    {K : Type ℓ} ⦃e : Eq K⦄ (i j k : K) → e.beq i k ≡ true → e.beq i j ≡ false → e.beq j k ≡ false
first_only ⦃e = e⦄ i j k here other = elim (Bool-cases (e.beq j k)) [
  | inl same ↦ absurd (
      true≢false (
        sym (
          subst (λ x. e.beq i x ≡ true) (e.beq_sound i k here ∙ sym (e.beq_sound j k same))
            (e.beq_refl i))
        ∙ other))
  | inr differ ↦ differ
]

pub beq_sym_false {ℓ} : {K : Type ℓ} ⦃e : Eq K⦄ (i j : K) → e.beq i j ≡ false → e.beq j i ≡ false
beq_sym_false ⦃e = e⦄ i j n = elim (Bool-cases (e.beq j i)) [
  | inl same ↦
      absurd
        (true≢false (sym (subst (λ x. e.beq x j ≡ true) (e.beq_sound j i same) (e.beq_refl j)) ∙ n))
  | inr other ↦ other
]

if_again {ℓ} :
    {A : Type ℓ} (x y z : A) (b : Bool)
    → (if b then x else (if b then y else z)) ≡ (if b then x else z)
if_again x y z true = refl
if_again x y z false = refl

if_same {ℓ} : {A : Type ℓ} (x : A) (b : Bool) → (if b then x else x) ≡ x
if_same x true = refl
if_same x false = refl

module _ {ℓ κ} {K : Type ℓ} {V : Type κ} ⦃e : Eq K⦄ where
  unfoldable pub lookup : K → List (K × V) → Option V
  lookup k [] = none
  lookup k ((j, v) ∷ m) = if e.beq j k then some v else lookup k m

  -- An entry is overwritten where it stands, a new one goes to the end.
  unfoldable pub put : K → V → List (K × V) → List (K × V)
  put k v [] = (k, v) ∷ []
  put k v ((j, w) ∷ m) = let rest = put k v m in if e.beq j k then (k, v) ∷ m else (j, w) ∷ rest

  unfoldable pub remove : K → List (K × V) → List (K × V)
  remove k [] = []
  remove k ((j, v) ∷ m) = let rest = remove k m in if e.beq j k then rest else (j, v) ∷ rest

  pub lookup-put :
      (k j : K) (v : V) (m : List (K × V))
      → lookup j (put k v m) ≡ (if e.beq k j then some v else lookup j m)
  unfolding lookup put
  lookup-put k j v [] = refl
  lookup-put k j v ((i, w) ∷ m) =
      let ih = lookup-put k j v m in
      elim (Bool-cases (e.beq i k)) [
        | inl c ↦ rw (c, e.beq_sound i k c) (sym (if_again _ _ _ (e.beq k j)))
        | inr c ↦ elim (Bool-cases (e.beq i j)) [
          | inl d ↦ rw (c, d, distinct i j k c d) refl
          | inr d ↦ rw (c, d) ih
        ]
      ]

  pub lookup-put_self : (k : K) (v : V) (m : List (K × V)) → lookup k (put k v m) ≡ some v
  lookup-put_self k v m = rw (lookup-put k k v m, e.beq_refl k)

  pub lookup-remove :
      (k j : K) (m : List (K × V))
      → lookup j (remove k m) ≡ (if e.beq k j then none else lookup j m)
  unfolding lookup remove
  lookup-remove k j [] = sym (if_same none (e.beq k j))
  lookup-remove k j ((i, w) ∷ m) =
      let ih = lookup-remove k j m in
      elim (Bool-cases (e.beq i k)) [
        | inl c ↦ rw (c, ih, e.beq_sound i k c) (sym (if_again _ _ _ (e.beq k j)))
        | inr c ↦ elim (Bool-cases (e.beq i j)) [
          | inl d ↦ rw (c, d, distinct i j k c d) refl
          | inr d ↦ rw (c, d) ih
        ]
      ]

  pub length-put : (k : K) (v : V) (m : List (K × V)) → length (put k v m) ≤ length m + 1
  unfolding put
  length-put k v [] = omega arith
  length-put k v ((j, w) ∷ m) = ground (arith, length-put k v m)

  -- No key stands twice.
  pub data Unique : List (K × V) → Type (ℓ ⊔ κ) where
    unique_nil : Unique []
    unique_cons :
        (k : K) (v : V) (m : List (K × V)) → lookup k m ≡ none → Unique m → Unique ((k, v) ∷ m)

  pub put-Unique : (k : K) (v : V) (m : List (K × V)) → Unique m → Unique (put k v m)
  unfolding put lookup
  put-Unique k v [] unique_nil = unique_cons k v [] refl unique_nil
  put-Unique k v _ (unique_cons j w m n u) = elim (Bool-cases (e.beq j k)) [
    | inl same ↦
        rw same (unique_cons k v m (subst (λ i. lookup i m ≡ none) (e.beq_sound j k same) n) u)
    | inr other ↦ rw other (
        unique_cons j w (put k v m)
          (lookup-put k j v m ∙ if_false _ _ (beq_sym_false j k other) ∙ n) (put-Unique k v m u))
  ]

  pub length-put_known :
      (k : K) (v w : V) (m : List (K × V)) → lookup k m ≡ some w → length (put k v m) ≡ length m
  unfolding put lookup
  length-put_known k v w [] found = absurd (none-ne-some w found)
  length-put_known k v w ((j, x) ∷ m) found = elim (Bool-cases (e.beq j k)) [
    | inl same ↦ rw same refl
    | inr other ↦ rw other (ap suc (length-put_known k v w m (sym (if_false _ _ other) ∙ found)))
  ]

  pub length-put_new :
      (k : K) (v : V) (m : List (K × V)) → lookup k m ≡ none → length (put k v m) ≡ suc (length m)
  unfolding put lookup
  length-put_new k v [] new = refl
  length-put_new k v ((j, x) ∷ m) new = elim (Bool-cases (e.beq j k)) [
    | inl same ↦ absurd (none-ne-some x (sym new ∙ if_true _ _ same))
    | inr other ↦ rw other (ap suc (length-put_new k v m (sym (if_false _ _ other) ∙ new)))
  ]

  -- Removing a key that is not there changes nothing.
  pub remove_absent : (k : K) (m : List (K × V)) → lookup k m ≡ none → remove k m ≡ m
  unfolding remove lookup
  remove_absent k [] new = refl
  remove_absent k ((j, x) ∷ m) new = elim (Bool-cases (e.beq j k)) [
    | inl same ↦ absurd (none-ne-some x (sym new ∙ if_true _ _ same))
    | inr other ↦ rw other (ap (◌∷◌ (j, x)) (remove_absent k m (sym (if_false _ _ other) ∙ new)))
  ]

  pub remove-Unique : (k : K) (m : List (K × V)) → Unique m → Unique (remove k m)
  unfolding remove lookup
  remove-Unique k [] unique_nil = unique_nil
  remove-Unique k _ (unique_cons j w m n u) = elim (Bool-cases (e.beq j k)) [
    | inl same ↦ rw same (remove-Unique k m u)
    | inr other ↦ rw other (
        unique_cons j w (remove k m)
          (lookup-remove k j m ∙ if_false _ _ (beq_sym_false j k other) ∙ n) (remove-Unique k m u))
  ]

  pub length-remove :
      (k : K) (w : V) (m : List (K × V))
      → Unique m
      → lookup k m ≡ some w
      → suc (length (remove k m)) ≡ length m
  unfolding remove lookup
  length-remove k w [] unique_nil found = absurd (none-ne-some w found)
  length-remove k w _ (unique_cons j x m n u) found = elim (Bool-cases (e.beq j k)) [
    | inl same ↦ rw same (
        ap (λ l. suc (length l))
          (remove_absent k m (subst (λ i. lookup i m ≡ none) (e.beq_sound j k same) n)))
    | inr other ↦ rw other (ap suc (length-remove k w m u (sym (if_false _ _ other) ∙ found)))
  ]

  -- An entry at the end is found where there is none of its key before.
  pub lookup-append :
      (k j : K) (v : V) (m : List (K × V))
      → lookup j m ≡ none
      → lookup k (m ++ ((j, v) ∷ [])) ≡ (if e.beq j k then some v else lookup k m)
  unfolding lookup
  lookup-append k j v [] new = refl
  lookup-append k j v ((i, x) ∷ m) new = elim (Bool-cases (e.beq i j)) [
    | inl same ↦ absurd (none-ne-some x (sym new ∙ if_true _ _ same))
    | inr other ↦ elim (Bool-cases (e.beq i k)) [
      | inl here ↦ rw (here, first_only i j k here other) refl
      | inr there ↦ rw there (lookup-append k j v m (sym (if_false _ _ other) ∙ new))
    ]
  ]

  pub append-Unique :
      (k : K) (v : V) (m : List (K × V))
      → Unique m
      → lookup k m ≡ none
      → Unique (m ++ ((k, v) ∷ []))
  unfolding lookup
  append-Unique k v [] unique_nil new = unique_cons k v [] refl unique_nil
  append-Unique k v _ (unique_cons j w m n u) new = elim (Bool-cases (e.beq j k)) [
    | inl same ↦ absurd (none-ne-some w (sym new ∙ if_true _ _ same))
    | inr other ↦
        unique_cons j w (m ++ ((k, v) ∷ []))
          (lookup-append j k v m (sym (if_false _ _ other) ∙ new)
            ∙ if_false _ _ (beq_sym_false j k other)
            ∙ n)
          (append-Unique k v m u (sym (if_false _ _ other) ∙ new))
  ]
