-- ===== src/Grouping/Cache/Bounded.antt =====
-- The cache of crates/core/src/grouping.rs over a whole history of lookups and insertions, against
-- a list that forgets ticks and maps.
use pg_plansight.Prelude.{
  ℕ, ◌+◌, ◌^◌, ◌≤◌, ◌<◌, ◌≡◌, refl, sym, ap, ap₂, subst, ◌∙◌, inl, inr, Bool, true, false, ◌&&◌,
  Option, none, some, List, [], ◌∷◌, ◌++◌, map, arith, ltb, leb, ◌==◌, Bool-cases, Option-cases,
  length, length-map, lookup, remove, unique_nil, nat_eq, bytes_key,
}
use mathlib.Core.List.{map-append}
use mathlib.Core.Option.{none-ne-some}
use pg_plansight.Grouping.Plans.{Bytes}
use pg_plansight.Grouping.Cache.{
  Entry, FingerprintCache, with_capacity, refresh, get, must_evict, insert,
}
use pg_plansight.Grouping.Cache.Sound.{get_hit, get_miss, insert_known, insert_new, with_room}
use pg_plansight.Grouping.Cache.Recency.{rising_nil}
use pg_plansight.Grouping.Cache.Lru.{
  Represents, fresh_entry, used_last, refresh-Represents, roomy, roomy-tick, ticked,
  insert_new-Represents,
}

-- keys: nat_eq Lru

-- The fingerprints by hash, the least recently used first.
abbrev pub Recent : Type 0
Recent = List (ℕ × Bytes)

abbrev pub to_end : ℕ → Bytes → Recent → Recent
to_end hash text l = remove hash l ++ ((hash, text) ∷ [])

-- A lookup moves what it finds to the end.
abbrev pub recall_found : ℕ → Recent → Option Bytes → Option Bytes × Recent
recall_found hash l none = (none, l)
recall_found hash l (some text) = (some text, to_end hash text l)

abbrev pub recall : ℕ → Recent → Option Bytes × Recent
recall hash l = recall_found hash l (lookup hash l)

-- An insertion goes to the end, and drops the first of a full list if its hash is new. A cap of 0
-- is none.
abbrev pub store_found : ℕ → ℕ → Bytes → Recent → Option Bytes → Recent
store_found cap hash text l (some old) = to_end hash text l
store_found cap hash text l none = roomy (ltb 0 cap && leb cap (length l)) l ++ ((hash, text) ∷ [])

abbrev pub store : ℕ → ℕ → Bytes → Recent → Recent
store cap hash text l = store_found cap hash text l (lookup hash l)

pub data Use : Type 0 where
  ask : ℕ → Use
  save : ℕ → Bytes → Use

-- A use of the cache and of the list: what it answers and what it leaves.
unfoldable pub apply : FingerprintCache → Use → Option Bytes × FingerprintCache
apply c (ask hash) = get c hash
apply c (save hash text) = (none, insert c hash text)

unfoldable pub apply_recent : ℕ → Recent → Use → Option Bytes × Recent
apply_recent cap l (ask hash) = recall hash l
apply_recent cap l (save hash text) = (none, store cap hash text l)

unfoldable pub answers : FingerprintCache → List Use → List (Option Bytes)
answers c [] = []
answers c (u ∷ us) = (apply c u).0 ∷ answers (apply c u).1 us

unfoldable pub recent_answers : ℕ → Recent → List Use → List (Option Bytes)
recent_answers cap l [] = []
recent_answers cap l (u ∷ us) =
    (apply_recent cap l u).0 ∷ recent_answers cap (apply_recent cap l u).1 us

abbrev pub view_entry : ℕ × Entry → ℕ × Bytes
view_entry x = (x.0, x.1.text)

abbrev pub view : List (ℕ × Entry) → Recent
view = map view_entry

abbrev text_of : Option Entry → Option Bytes
text_of none = none
text_of (some e) = some e.text

lookup-view : (hash : ℕ) (m : List (ℕ × Entry)) → lookup hash (view m) ≡ text_of (lookup hash m)
unfolding lookup
lookup-view hash [] = refl
lookup-view hash ((k, e) ∷ m) = elim (Bool-cases (k == hash)) [
  | inl same ↦ rw same refl
  | inr other ↦ rw other (lookup-view hash m)
]

remove-view : (hash : ℕ) (m : List (ℕ × Entry)) → view (remove hash m) ≡ remove hash (view m)
unfolding remove
remove-view hash [] = refl
remove-view hash ((k, e) ∷ m) = elim (Bool-cases (k == hash)) [
  | inl same ↦ rw same (remove-view hash m)
  | inr other ↦ rw other (ap (◌∷◌ (k, e.text)) (remove-view hash m))
]

roomy-view : (full : Bool) (m : List (ℕ × Entry)) → view (roomy full m) ≡ roomy full (view m)
roomy-view true [] = refl
roomy-view true (x ∷ m) = refl
roomy-view false m = refl

used_last-view :
    (hash : ℕ) (e : Entry) (m : List (ℕ × Entry))
    → view (used_last hash e m) ≡ to_end hash e.text (view m)
used_last-view hash e m =
    map-append view_entry (remove hash m) ((hash, e) ∷ [])
    ∙ ap (λ l. l ++ ((hash, e.text) ∷ [])) (remove-view hash m)

-- The cache `c'` after a use of `c`, and the list after it.
pub record Stepped (c : FingerprintCache) (c' : FingerprintCache) (l : Recent) : Type 0 where
  pub log : List (ℕ × Entry)
  pub represents : Represents c' log
  pub viewed : view log ≡ l
  pub ticks : c'.tick ≤ c.tick + 1
  pub cap : c'.cap ≡ c.cap

-- The same answer, and caches and lists that go on together.
abbrev pub Steps :
    FingerprintCache → Option Bytes × FingerprintCache → Option Bytes × Recent → Type 0
Steps c a b = (a.0 ≡ b.0) × Stepped c a.1 b.1

seen :
    (hash : ℕ) (log : List (ℕ × Entry)) (o : Option Entry)
    → lookup hash log ≡ o
    → text_of o ≡ lookup hash (view log)
seen hash log o found = sym (lookup-view hash log ∙ ap text_of found)

get-Steps :
    (c : FingerprintCache) (log : List (ℕ × Entry)) (hash : ℕ)
    → Represents c log
    → c.tick + 1 < 2 ^ 64
    → Steps c (get c hash) (recall hash (view log))
get-Steps c log hash r small = elim (Option-cases (lookup hash log)) [
  | inl new ↦
      subst (λ a. Steps c a (recall hash (view log))) (sym (get_miss c hash (r.same hash ∙ new)))
        (subst (λ o. Steps c (none, c) (recall_found hash (view log) o)) (seen hash log none new)
          (
            refl,
            record { log = log; represents = r; viewed = refl; ticks = omega arith; cap = refl },
          ))
  | inr (e, found) ↦
      subst (λ a. Steps c a (recall hash (view log))) (sym (get_hit c hash e (r.same hash ∙ found)))
        (subst
          (λ o.
            Steps c (some e.text, refresh c hash e.text e.used) (recall_found hash (view log) o))
          (seen hash log (some e) found)
          (
            refl,
            record {
              log = used_last hash (fresh_entry c e.text) log;
              represents = refresh-Represents c log hash e.text e r small found;
              viewed = used_last-view hash (fresh_entry c e.text) log;
              ticks = omega arith;
              cap = refl;
            },
          ))
]

full-view :
    (c : FingerprintCache) (log : List (ℕ × Entry))
    → Represents c log
    → must_evict (ticked c) ≡ (ltb 0 c.cap && leb c.cap (length (view log)))
full-view c log r =
    ap (λ n. ltb 0 c.cap && leb c.cap n) (r.same_length ∙ sym (length-map view_entry log))

insert_new-cap :
    (c : FingerprintCache) (hash : ℕ) (text : Bytes)
    → lookup hash c.entries ≡ none
    → ((insert c hash text).tick ≤ c.tick + 1) × ((insert c hash text).cap ≡ c.cap)
unfolding with_room
insert_new-cap c hash text new =
    let kept = roomy-tick (must_evict (ticked c)) (ticked c) in
    subst (λ (d : FingerprintCache). (d.tick ≤ c.tick + 1) × (d.cap ≡ c.cap))
      (sym (insert_new c hash text new)) (omega (arith, kept.0), kept.1)

insert-Steps :
    (c : FingerprintCache) (log : List (ℕ × Entry)) (hash : ℕ) (text : Bytes)
    → Represents c log
    → c.tick + 1 < 2 ^ 64
    → Steps c (none, insert c hash text) (none, store c.cap hash text (view log))
insert-Steps c log hash text r small = elim (Option-cases (lookup hash log)) [
  | inl new ↦
      let kept = insert_new-cap c hash text (r.same hash ∙ new) in
      subst
        (λ o. Steps c (none, insert c hash text) (none, store_found c.cap hash text (view log) o))
        (seen hash log none new)
        (
          refl,
          record {
            log = roomy (must_evict (ticked c)) log ++ ((hash, fresh_entry c text) ∷ []);
            represents = insert_new-Represents c log hash text r small new;
            viewed =
                map-append view_entry (roomy (must_evict (ticked c)) log)
                  ((hash, fresh_entry c text) ∷ [])
                ∙ ap (λ l. l ++ ((hash, text) ∷ []))
                    (roomy-view (must_evict (ticked c)) log
                      ∙ ap (λ b. roomy b (view log)) (full-view c log r));
            ticks = kept.0;
            cap = kept.1;
          },
        )
  | inr (e, found) ↦
      subst (λ d. Steps c (none, d) (none, store c.cap hash text (view log)))
        (sym (insert_known c hash text e (r.same hash ∙ found)))
        (subst
          (λ o.
            Steps c (none, refresh c hash text e.used)
              (none, store_found c.cap hash text (view log) o))
          (seen hash log (some e) found)
          (
            refl,
            record {
              log = used_last hash (fresh_entry c text) log;
              represents = refresh-Represents c log hash text e r small found;
              viewed = used_last-view hash (fresh_entry c text) log;
              ticks = omega arith;
              cap = refl;
            },
          ))
]

pub apply-Steps :
    (c : FingerprintCache) (log : List (ℕ × Entry)) (u : Use)
    → Represents c log
    → c.tick + 1 < 2 ^ 64
    → Steps c (apply c u) (apply_recent c.cap (view log) u)
unfolding apply apply_recent
apply-Steps c log (ask hash) r small = get-Steps c log hash r small
apply-Steps c log (save hash text) r small = insert-Steps c log hash text r small

answers-recent :
    (c : FingerprintCache) (log : List (ℕ × Entry)) (us : List Use)
    → Represents c log
    → c.tick + length us < 2 ^ 64
    → answers c us ≡ recent_answers c.cap (view log) us
unfolding answers recent_answers
answers-recent c log [] r small = refl
answers-recent c log (u ∷ us) r small =
    let (same, step) = apply-Steps c log u r (omega arith) in
    ap₂ ◌∷◌ same (
      answers-recent (apply c u).1 step.log us step.represents (omega (arith, step.ticks))
      ∙ ap₂ (λ cap l. recent_answers cap l us) step.cap step.viewed)

pub empty-Represents : (cap : ℕ) → Represents (with_capacity cap) []
unfolding with_capacity lookup
empty-Represents cap = record {
  ordered = refl;
  same = λ k. refl;
  unique_entries = unique_nil;
  unique = unique_nil;
  same_length = refl;
  rising = rising_nil;
  past = λ k e f. absurd (none-ne-some e f);
}

-- From an empty cache on, any history of fewer than 2^64 lookups and insertions is answered like
-- by a list of fingerprints in the order of their last use: a lookup that finds an entry and an
-- insertion of a known hash move the entry to the end, and an insertion of a new hash appends one,
-- after the first was dropped if the list has as many as the cap. A cap of 0 is none.
pub answers-recent_answers :
    (cap : ℕ) (us : List Use)
    → length us < 2 ^ 64
    → answers (with_capacity cap) us ≡ recent_answers cap [] us
unfolding with_capacity
answers-recent_answers cap us small =
    answers-recent (with_capacity cap) [] us (empty-Represents cap) (omega arith)
