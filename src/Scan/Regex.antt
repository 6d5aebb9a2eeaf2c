-- ===== src/Scan/Regex.antt =====
-- Backtracking regular expressions, as the pattern that crates/core/src/simd_scan.rs replaces is
-- read: alternatives in order, repetitions greedy.
use pg_plansight.Prelude.{
  ℕ, zero, suc, ◌≡◌, refl, ap, ◌∙◌, inl, inr, Bool, true, false, ◌||◌, Option, none, some, List, [],
  ◌∷◌, ◌++◌, append-nil, ◌==◌, if◌then◌else◌, Bool-cases, drop,
}
use mathlib.Core.Option
use pg_plansight.Scan.Verdict.{is_ascii_digit, is_ascii_uppercase}

pub data Regex : Type 0 where
  empty : Regex
  class : (ℕ → Bool) → Regex
  seq : Regex → Regex → Regex
  alt : Regex → Regex → Regex
  optional : Regex → Regex

abbrev pub flat_map {ℓ κ} : {A : Type ℓ} {B : Type κ} → (A → List B) → List A → List B
flat_map f [] = []
flat_map f (x ∷ xs) = f x ++ flat_map f xs

-- What is left of the text after each way to match, the preferred way first.
abbrev pub rests : Regex → List ℕ → List (List ℕ)
rests empty s = s ∷ []
rests (class p) [] = []
rests (class p) (b ∷ s) = if p b then s ∷ [] else []
rests (seq r q) s = flat_map (rests q) (rests r s)
rests (alt r q) s = rests r s ++ rests q s
rests (optional r) s = rests r s ++ (s ∷ [])

abbrev pub first {ℓ} : {A : Type ℓ} → List A → Option A
first [] = none
first (x ∷ xs) = some x

abbrev pub or_else {ℓ} : {A : Type ℓ} → Option A → A → A
or_else none d = d
or_else (some a) d = a

-- `r{0,k}`
abbrev pub up_to : ℕ → Regex → Regex
up_to zero r = empty
up_to (suc k) r = optional (seq r (up_to k r))

-- The length of the run of bytes in a class, counted up to `k`.
abbrev pub run_length : (ℕ → Bool) → ℕ → List ℕ → ℕ
run_length p zero s = 0
run_length p (suc k) [] = 0
run_length p (suc k) (b ∷ s) = if p b then suc (run_length p k s) else 0

first-append {ℓ} :
    {A : Type ℓ} (xs : List A) (y : A) → first (xs ++ (y ∷ [])) ≡ some (or_else (first xs) y)
first-append [] y = refl
first-append (x ∷ xs) y = refl

pub first-optional :
    (r : Regex) (s : List ℕ) → first (rests (optional r) s) ≡ some (or_else (first (rests r s)) s)
first-optional r s = first-append (rests r s) s

-- After a part that always matches, the first way is the first way of the part before it.
pub first-seq :
    (r q : Regex) (g : List ℕ → List ℕ) (s : List ℕ)
    → ((t : List ℕ) → first (rests q t) ≡ some (g t))
    → first (rests (seq r q) s) ≡ Option.map g (first (rests r s))
first-seq r q g s total = go (rests r s)
  where
    append : (xs ys : List (List ℕ)) (x : List ℕ) → first xs ≡ some x → first (xs ++ ys) ≡ some x
    append [] ys x e = cc
    append (y ∷ xs) ys x e = e

    go : (xs : List (List ℕ)) → first (flat_map (rests q) xs) ≡ Option.map g (first xs)
    go [] = refl
    go (x ∷ xs) = append (rests q x) (flat_map (rests q) xs) (g x) (total x)

pub first-class :
    (p : ℕ → Bool) (q : Regex) (b : ℕ) (s : List ℕ)
    → first (rests (seq (class p) q) (b ∷ s)) ≡ (if p b then first (rests q s) else none)
first-class p q b s = elim (Bool-cases (p b)) [
  | inl e ↦ rw e (ap first (append-nil (rests q s)))
  | inr e ↦ rw e
]

-- A greedy repetition of a class takes the whole run.
pub first-up_to :
    (p : ℕ → Bool) (k : ℕ) (s : List ℕ)
    → first (rests (up_to k (class p)) s) ≡ some (drop (run_length p k s) s)
first-up_to p zero s = refl
first-up_to p (suc k) [] = refl
first-up_to p (suc k) (b ∷ s) =
    first-optional (seq (class p) (up_to k (class p))) (b ∷ s)
    ∙ rw (first-class p (up_to k (class p)) b s, first-up_to p k s) (taken (p b))
  where
    taken :
        (c : Bool)
        → some (or_else (if c then some (drop (run_length p k s) s) else none) (b ∷ s))
          ≡ some (drop (if c then suc (run_length p k s) else 0) (b ∷ s))
    taken true = refl
    taken false = refl

abbrev pub byte : ℕ → Regex
byte c = class (λ b. b == c)

abbrev pub digit : Regex
digit = class is_ascii_digit

abbrev pub upper : Regex
upper = class is_ascii_uppercase

abbrev pub sequence : List Regex → Regex
sequence [] = empty
sequence (r ∷ rs) = seq r (sequence rs)

-- `(?:\.\d{1,6})?`
abbrev pub fraction : Regex
fraction = optional (seq (byte b'.') (seq digit (up_to 5 digit)))

-- `[+-]\d{2}(?::?\d{2})?`
abbrev pub minutes : Regex
minutes = optional (seq (optional (byte b':')) (seq digit digit))

abbrev pub offset : Regex
offset = seq (class (λ b. b == b'+' || b == b'-')) (seq digit (seq digit minutes))

-- `[A-Z]{2,5}`
abbrev pub letters : Regex
letters = seq upper (seq upper (up_to 3 upper))

-- `(?: (?:[A-Z]{2,5}|[+-]\d{2}(?::?\d{2})?))?`
abbrev pub zone : Regex
zone = optional (seq (byte 0x20) (alt letters offset))

-- `\d{4}-\d{2}-\d{2} \d{2}:\d{2}:\d{2}`, with a digit at each `d` of a shape.
abbrev pub shaped : List ℕ → Regex → Regex
shaped [] r = r
shaped (c ∷ cs) r = seq (if c == b'd' then digit else byte c) (shaped cs r)
