-- ===== src/Grouping/Cache/Size.antt =====
-- The size of the fingerprint cache of crates/core/src/grouping.rs over a history.
use pg_plansight.Prelude.{
  ℕ, ◌+◌, ◌^◌, ◌≤◌, ◌<◌, ◌≡◌, sym, ap, subst, ◌∙◌, inl, inr, ◌&&◌, some, List, [], ◌∷◌, arith, ltb,
  leb, ◌==◌, Bool-cases, if_false, Option-cases, length, length-append, length-map, lookup, remove,
  nat_eq, bytes_key,
}
use mathlib.Core.Option.{none-ne-some}
use pg_plansight.Grouping.Plans.{Bytes}
use pg_plansight.Grouping.Cache.{Entry, FingerprintCache, with_capacity}
use pg_plansight.Grouping.Cache.Lru.{Represents, roomy}
use pg_plansight.Grouping.Cache.Bounded.{
  Recent, to_end, recall_found, store_found, Use, ask, save, apply, apply_recent, view_entry, view,
  apply-Steps, empty-Represents,
}

-- keys: nat_eq Lru

length-remove_at_most : (hash : ℕ) (l : Recent) → length (remove hash l) ≤ length l
unfolding remove
length-remove_at_most hash [] = omega arith
length-remove_at_most hash ((k, t) ∷ l) = ground (arith, length-remove_at_most hash l)

length-to_end :
    (hash : ℕ) (text old : Bytes) (l : Recent)
    → lookup hash l ≡ some old
    → length (to_end hash text l) ≤ length l
unfolding lookup remove
length-to_end hash text old [] found = absurd (none-ne-some old found)
length-to_end hash text old ((k, t) ∷ l) found = elim (Bool-cases (k == hash)) [
  | inl same ↦ rw same (
      omega
        (arith, length-append (remove hash l) ((hash, text) ∷ []), length-remove_at_most hash l))
  | inr other ↦
      rw other (omega (arith, length-to_end hash text old l (sym (if_false _ _ other) ∙ found)))
]

length-roomy :
    (cap : ℕ) (l : Recent)
    → 0 < cap
    → length l ≤ cap
    → length (roomy (ltb 0 cap && leb cap (length l)) l) < cap
length-roomy cap [] positive fits = ground arith
length-roomy cap (x ∷ l) positive fits = ground arith

length-apply_recent :
    (cap : ℕ) (l : Recent) (u : Use)
    → 0 < cap
    → length l ≤ cap
    → length (apply_recent cap l u).1 ≤ cap
unfolding apply_recent
length-apply_recent cap l (ask hash) positive fits = elim (Option-cases (lookup hash l)) [
  | inl new ↦ subst (λ o. length (recall_found hash l o).1 ≤ cap) (sym new) fits
  | inr (old, found) ↦
      subst (λ o. length (recall_found hash l o).1 ≤ cap) (sym found)
        (omega (arith, length-to_end hash old old l found))
]
length-apply_recent cap l (save hash text) positive fits = elim (Option-cases (lookup hash l)) [
  | inl new ↦
      subst (λ o. length (store_found cap hash text l o) ≤ cap) (sym new)
        (omega (
          arith,
          length-roomy cap l positive fits,
          length-append (roomy (ltb 0 cap && leb cap (length l)) l) ((hash, text) ∷ []),
        ))
  | inr (old, found) ↦
      subst (λ o. length (store_found cap hash text l o) ≤ cap) (sym found)
        (omega (arith, length-to_end hash text old l found))
]

-- The cache after a history.
unfoldable pub after_all : FingerprintCache → List Use → FingerprintCache
after_all c [] = c
after_all c (u ∷ us) = after_all (apply c u).1 us

after_all-fits :
    (c : FingerprintCache) (log : List (ℕ × Entry)) (us : List Use)
    → Represents c log
    → 0 < c.cap
    → length (view log) ≤ c.cap
    → c.tick + length us < 2 ^ 64
    → length (after_all c us).entries ≤ c.cap
unfolding after_all
after_all-fits c log [] r positive fits small =
    omega (arith, r.same_length, length-map view_entry log)
after_all-fits c log (u ∷ us) r positive fits small =
    let step = (apply-Steps c log u r (omega arith)).1 in
    subst (λ cap. length (after_all (apply c u).1 us).entries ≤ cap) step.cap
      (after_all-fits (apply c u).1 step.log us step.represents (omega (arith, step.cap))
        (omega (
          arith,
          step.cap,
          ap length step.viewed,
          length-apply_recent c.cap (view log) u positive fits,
        ))
        (omega (arith, step.ticks)))

-- A cache with a cap that is not 0 never has more entries than its cap, whatever fewer than 2^64
-- lookups and insertions were made since it was empty.
pub length-after_all :
    (cap : ℕ) (us : List Use)
    → 0 < cap
    → length us < 2 ^ 64
    → length (after_all (with_capacity cap) us).entries ≤ cap
unfolding with_capacity
length-after_all cap us positive small =
    after_all-fits (with_capacity cap) [] us (empty-Represents cap) positive (omega arith)
      (omega arith)
