-- ===== src/Grouping/Cache/Recency.antt =====
-- The entries of the fingerprint cache of crates/core/src/grouping.rs in the order of their ticks,
-- oldest first, and what the cache's two maps make of such a list.
use pg_plansight.Prelude.{
  ℕ, ◌<◌, ◌≡◌, refl, sym, ap, subst, ◌∙◌, ◌⊎◌, inl, inr, false, none, some, List, [], ◌∷◌, ◌++◌,
  map, arith, ◌==◌, le→ltb, ==→≡, ≡→==, Bool-cases, if_true, if_false, nat_refl, lookup, remove,
  lookup-remove, remove_absent, lookup-append, Unique, unique_nil, unique_cons, nat_eq, bytes_key,
}
use mathlib.Core.Option.{none-ne-some, some-injective}
use pg_plansight.Grouping.Cache.{Entry, insert_sorted}

-- The entry of a list in `order`.
abbrev pub stamp : ℕ × Entry → ℕ × ℕ
stamp x = (x.1.used, x.0)

-- All entries were used after, or before, a tick.
abbrev pub After : ℕ → List (ℕ × Entry) → Type 0
After t m = (k : ℕ) (e : Entry) → lookup k m ≡ some e → t < e.used

abbrev pub Until : ℕ → List (ℕ × Entry) → Type 0
Until t m = (k : ℕ) (e : Entry) → lookup k m ≡ some e → e.used < t

pub data Rising : List (ℕ × Entry) → Type 0 where
  rising_nil : Rising []
  rising_cons :
      (k : ℕ) (e : Entry) (m : List (ℕ × Entry)) → After e.used m → Rising m → Rising ((k, e) ∷ m)

-- What is found behind another key is in the list.
pub behind :
    (j k : ℕ) (x e : Entry) (m : List (ℕ × Entry))
    → lookup j m ≡ none
    → lookup k m ≡ some e
    → lookup k ((j, x) ∷ m) ≡ some e
unfolding lookup
behind j k x e m new found = elim (Bool-cases (j == k)) [
  | inl same ↦
      absurd (none-ne-some e (sym (subst (λ i. lookup i m ≡ none) (==→≡ j k same) new) ∙ found))
  | inr other ↦ if_false _ _ other ∙ found
]

differs : (a b : ℕ) → a < b → (b == a) ≡ false
differs a b h = ground arith

-- The newest tick goes to the end of `order`.
pub insert_sorted-end :
    (now hash : ℕ) (m : List (ℕ × Entry))
    → Unique m
    → Until now m
    → insert_sorted now hash (map stamp m) ≡ map stamp m ++ ((now, hash) ∷ [])
unfolding insert_sorted lookup
insert_sorted-end now hash [] unique_nil b = refl
insert_sorted-end now hash _ (unique_cons k e m new q) b =
    let less : e.used < now = b k e (if_true _ _ (nat_refl k)) in
    rw (le→ltb now e.used (omega arith), differs e.used now less)
      (ap (◌∷◌ (e.used, k))
        (insert_sorted-end now hash m q (λ j x found. b j x (behind k j e x m new found))))

differs' : (a b : ℕ) → a < b → (a == b) ≡ false
differs' a b h = ground arith

remove-stamp_absent :
    (t : ℕ) (m : List (ℕ × Entry)) → Unique m → After t m → remove t (map stamp m) ≡ map stamp m
unfolding remove lookup
remove-stamp_absent t [] unique_nil after = refl
remove-stamp_absent t _ (unique_cons k e m new q) after =
    rw (differs t e.used (after k e (if_true _ _ (nat_refl k)))) (
      ap (◌∷◌ (e.used, k))
        (remove-stamp_absent t m q (λ j x found. after j x (behind k j e x m new found))))

-- Taking the tick of an entry out of `order` takes out its key.
pub remove-stamp :
    (hash : ℕ) (e : Entry) (m : List (ℕ × Entry))
    → Unique m
    → Rising m
    → lookup hash m ≡ some e
    → remove e.used (map stamp m) ≡ map stamp (remove hash m)
unfolding remove lookup
remove-stamp hash e [] unique_nil r found = absurd (none-ne-some e found)
remove-stamp hash e _ (unique_cons k x m new q) (rising_cons _ _ _ after r) found =
    elim (Bool-cases (k == hash)) [
      | inl same ↦
          let this : x ≡ e = some-injective x e (sym (if_true _ _ same) ∙ found) in
          rw (same, ≡→== x.used e.used (ap (λ y. y.used) this))
            (remove-stamp_absent e.used m q (subst (λ y. After (Entry.used y) m) this after)
              ∙ sym (
                  ap (map stamp)
                    (remove_absent hash m (subst (λ i. lookup i m ≡ none) (==→≡ k hash same) new))))
      | inr other ↦
          let there = sym (if_false _ _ other) ∙ found in
          rw (other, differs' x.used e.used (after hash e there))
            (ap (◌∷◌ (x.used, k)) (remove-stamp hash e m q r there))
    ]

-- What is left after a removal was there.
pub remove-kept :
    (hash k : ℕ) (e : Entry) (m : List (ℕ × Entry))
    → lookup k (remove hash m) ≡ some e
    → lookup k m ≡ some e
remove-kept hash k e m found = elim (Bool-cases (hash == k)) [
  | inl same ↦
      absurd (none-ne-some e (sym (if_true _ _ same) ∙ sym (lookup-remove hash k m) ∙ found))
  | inr other ↦ sym (if_false _ _ other) ∙ sym (lookup-remove hash k m) ∙ found
]

pub remove-Rising : (hash : ℕ) (m : List (ℕ × Entry)) → Rising m → Rising (remove hash m)
unfolding remove
remove-Rising hash [] rising_nil = rising_nil
remove-Rising hash _ (rising_cons k e m after r) = elim (Bool-cases (k == hash)) [
  | inl same ↦ rw same (remove-Rising hash m r)
  | inr other ↦ rw other (
      rising_cons k e (remove hash m) (λ j x found. after j x (remove-kept hash j x m found))
        (remove-Rising hash m r))
]

tail_new :
    (hash k : ℕ) (x : Entry) (m : List (ℕ × Entry))
    → lookup hash ((k, x) ∷ m) ≡ none
    → lookup hash m ≡ none
unfolding lookup
tail_new hash k x m new = elim (Bool-cases (k == hash)) [
  | inl same ↦ absurd (none-ne-some x (sym new ∙ if_true _ _ same))
  | inr other ↦ sym (if_false _ _ other) ∙ new
]

-- What is found with an entry at the end is that entry or was there.
pub found_either :
    (hash k : ℕ) (e x : Entry) (m : List (ℕ × Entry))
    → lookup hash m ≡ none
    → lookup k (m ++ ((hash, e) ∷ [])) ≡ some x
    → (e ≡ x) ⊎ (lookup k m ≡ some x)
found_either hash k e x m new found = elim (Bool-cases (hash == k)) [
  | inl same ↦
      inl (some-injective e x (sym (lookup-append k hash e m new ∙ if_true _ _ same) ∙ found))
  | inr other ↦ inr (sym (lookup-append k hash e m new ∙ if_false _ _ other) ∙ found)
]

pub append-Rising :
    (hash : ℕ) (e : Entry) (m : List (ℕ × Entry))
    → Unique m
    → lookup hash m ≡ none
    → Until e.used m
    → Rising m
    → Rising (m ++ ((hash, e) ∷ []))
unfolding lookup
append-Rising hash e [] unique_nil new b rising_nil =
    rising_cons hash e [] (λ k x found. absurd (none-ne-some x found)) rising_nil
append-Rising hash e _ (unique_cons k x m n q) new b (rising_cons _ _ _ after r) =
    let new' = tail_new hash k x m new in
    rising_cons k x (m ++ ((hash, e) ∷ []))
      (λ j y found. elim (found_either hash j e y m new' found) [
        | inl same ↦ subst (λ z. x.used < Entry.used z) same (b k x (if_true _ _ (nat_refl k)))
        | inr before ↦ after j y before
      ])
      (append-Rising hash e m q new' (λ j y found. b j y (behind k j x y m n found)) r)
