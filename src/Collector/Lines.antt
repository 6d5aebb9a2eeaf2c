-- ===== src/Collector/Lines.antt =====
-- The lines of `[u8]::split_inclusive`, as crates/exporter/src/collector.rs cuts a range.
use pg_plansight.Prelude.{
  ℕ, suc, ◌+◌, ◌<◌, ◌≡◌, refl, sym, ap, subst, ◌∙◌, ◌≢◌, inl, inr, Bool, true, false, ◌&&◌, not,
  List, [], ◌∷◌, ◌++◌, arith, ◌==◌, Bool-cases, if_true, if_false, &&_true, length,
}
use pg_plansight.Collector.Boundary.{newline, prepend, split_inclusive, ends_line}

-- No newline before the last byte, of which there is one.
abbrev pub no_inner : List ℕ → Bool
no_inner [] = false
no_inner (b ∷ []) = true
no_inner (b ∷ c ∷ bs) = not (b == newline) && no_inner (c ∷ bs)

-- Nothing, or whole lines.
abbrev pub is_closed : List ℕ → Bool
is_closed [] = true
is_closed (b ∷ bs) = ends_line (b ∷ bs)

split_newline :
    (b : ℕ) (bs : List ℕ)
    → (b == newline) ≡ true
    → split_inclusive (b ∷ bs) ≡ (b ∷ []) ∷ split_inclusive bs
unfolding split_inclusive
split_newline b bs e = if_true _ _ e

split_other :
    (b : ℕ) (bs : List ℕ)
    → (b == newline) ≡ false
    → split_inclusive (b ∷ bs) ≡ prepend b (split_inclusive bs)
unfolding split_inclusive
split_other b bs e = if_false _ _ e

prepend-append :
    (b : ℕ) (ls ms : List (List ℕ)) → ls ≢ [] → prepend b (ls ++ ms) ≡ prepend b ls ++ ms
prepend-append b [] ms h = absurd (h refl)
prepend-append b (l ∷ ls) ms h = refl

prepend-ne : (b : ℕ) (ls : List (List ℕ)) → prepend b ls ≢ []
prepend-ne b [] e = cc
prepend-ne b (l ∷ ls) e = cc

split_inclusive-ne : (b : ℕ) (bs : List ℕ) → split_inclusive (b ∷ bs) ≢ []
split_inclusive-ne b bs e = elim (Bool-cases (b == newline)) [
  | inl nl ↦ let f = sym (split_newline b bs nl) ∙ e in cc
  | inr other ↦ prepend-ne b _ (sym (split_other b bs other) ∙ e)
]

-- Whole lines in front are split off by themselves.
pub split_inclusive-append :
    (xs ys : List ℕ)
    → is_closed xs ≡ true
    → split_inclusive (xs ++ ys) ≡ split_inclusive xs ++ split_inclusive ys
unfolding split_inclusive
split_inclusive-append [] ys h = refl
split_inclusive-append (b ∷ []) ys h = rw h refl
split_inclusive-append (b ∷ c ∷ bs) ys h =
    let ih = split_inclusive-append (c ∷ bs) ys h in
    elim (Bool-cases (b == newline)) [
      | inl e ↦
          rw (split_newline b (c ∷ (bs ++ ys)) e, split_newline b (c ∷ bs) e) (ap (◌∷◌ (b ∷ [])) ih)
      | inr e ↦
          rw (split_other b (c ∷ (bs ++ ys)) e, split_other b (c ∷ bs) e)
            (ap (prepend b) ih
              ∙ prepend-append b (split_inclusive (c ∷ bs)) _ (split_inclusive-ne c bs))
    ]

pub split_one : (line : List ℕ) → no_inner line ≡ true → split_inclusive line ≡ line ∷ []
unfolding split_inclusive
split_one [] h = cc
split_one (b ∷ []) h = ground arith
split_one (b ∷ c ∷ bs) h =
    let (other, rest) = &&_true (not (b == newline)) (no_inner (c ∷ bs)) h in
    split_other b (c ∷ bs) (ground arith) ∙ ap (prepend b) (split_one (c ∷ bs) rest)

abbrev pub total : List (List ℕ) → ℕ
total [] = 0
total (l ∷ ls) = length l + total ls

total-prepend : (b : ℕ) (ls : List (List ℕ)) → total (prepend b ls) ≡ suc (total ls)
total-prepend b [] = refl
total-prepend b (l ∷ ls) = omega arith

pub total-split_inclusive : (bs : List ℕ) → total (split_inclusive bs) ≡ length bs
unfolding split_inclusive
total-split_inclusive [] = refl
total-split_inclusive (b ∷ bs) = elim (Bool-cases (b == newline)) [
  | inl e ↦ rw e (omega (arith, total-split_inclusive bs))
  | inr e ↦ rw e (total-prepend b (split_inclusive bs) ∙ ap suc (total-split_inclusive bs))
]

pub whole-closed : (bs : List ℕ) → ends_line bs ≡ true → is_closed bs ≡ true
whole-closed [] e = refl
whole-closed (b ∷ bs) e = e

pub ends_line-append : (xs ys : List ℕ) → ends_line ys ≡ true → ends_line (xs ++ ys) ≡ true
ends_line-append [] ys e = e
ends_line-append (x ∷ []) [] e = cc
ends_line-append (x ∷ []) (y ∷ ys) e = e
ends_line-append (x ∷ z ∷ xs) ys e = ends_line-append (z ∷ xs) ys e

-- Lines without an inner newline, all but the last ended by one.
abbrev pub Lines : List (List ℕ) → Type 0
Lines [] = Unit
Lines (l ∷ []) = no_inner l ≡ true
Lines (l ∷ m ∷ ls) = (no_inner l ≡ true) × (ends_line l ≡ true) × Lines (m ∷ ls)

single-Lines :
    (b : ℕ) (ls : List (List ℕ)) → (b == newline) ≡ true → Lines ls → Lines ((b ∷ []) ∷ ls)
single-Lines b [] e h = refl
single-Lines b (l ∷ ls) e h = (refl, e, h)

prepend-Lines :
    (b : ℕ) (ls : List (List ℕ)) → (b == newline) ≡ false → Lines ls → Lines (prepend b ls)
prepend-Lines b [] e h = refl
prepend-Lines b ([] ∷ []) e h = refl
prepend-Lines b ((c ∷ l) ∷ []) e h = rw e h
prepend-Lines b ([] ∷ m ∷ ls) e h = cc (h.0)
prepend-Lines b ((c ∷ l) ∷ m ∷ ls) e h = (rw e h.0, h.1, h.2)

pub split_inclusive-Lines : (bs : List ℕ) → Lines (split_inclusive bs)
unfolding split_inclusive
split_inclusive-Lines [] = tt
split_inclusive-Lines (b ∷ bs) =
    let ih = split_inclusive-Lines bs in
    elim (Bool-cases (b == newline)) [
      | inl e ↦ subst Lines (sym (if_true _ _ e)) (single-Lines b _ e ih)
      | inr e ↦ subst Lines (sym (if_false _ _ e)) (prepend-Lines b _ e ih)
    ]

abbrev pub concat : List (List ℕ) → List ℕ
concat [] = []
concat (l ∷ ls) = l ++ concat ls

concat-prepend : (b : ℕ) (ls : List (List ℕ)) → concat (prepend b ls) ≡ b ∷ concat ls
concat-prepend b [] = refl
concat-prepend b (l ∷ ls) = refl

pub concat-split_inclusive : (bs : List ℕ) → concat (split_inclusive bs) ≡ bs
unfolding split_inclusive
concat-split_inclusive [] = refl
concat-split_inclusive (b ∷ bs) =
    let ih = concat-split_inclusive bs in
    elim (Bool-cases (b == newline)) [
      | inl e ↦ rw e (ap (◌∷◌ b) ih)
      | inr e ↦ rw e (concat-prepend b (split_inclusive bs) ∙ ap (◌∷◌ b) ih)
    ]

pub no_inner-ne : (l : List ℕ) → no_inner l ≡ true → 0 < length l
no_inner-ne [] e = cc
no_inner-ne (b ∷ l) e = omega arith
