-- ===== src/Grouping/Cache/Lru.antt =====
-- The bounded cache of crates/core/src/grouping.rs against a list of fingerprints in the order of
-- their last use.
use pg_plansight.Prelude.{
  ℕ, ◌+◌, ◌%◌, ◌^◌, ◌≤◌, ◌<◌, ◌≡◌, refl, sym, ap, subst, ◌∙◌, inl, inr, Bool, true, false, none,
  some, List, [], ◌∷◌, ◌++◌, map, arith, ◌==◌, if◌then◌else◌, Bool-cases, if_true, if_false,
  Option-cases, length, length-append, nat_refl, lookup, remove, lookup-put, lookup-remove,
  put-Unique, length-put_known, length-put_new, remove_absent, remove-Unique, length-remove,
  lookup-append, append-Unique, Unique, unique_cons, nat_eq, bytes_key,
}
use mathlib.Core.List.{map-append}
use mathlib.Core.Option.{none-ne-some}
use pg_plansight.Grouping.Plans.{Bytes}
use pg_plansight.Grouping.Cache.{
  Entry, FingerprintCache, insert_sorted, refresh, evict_oldest, evict, must_evict, add_entry,
  insert,
}
use pg_plansight.Grouping.Cache.Sound.{insert_new, with_room}
use pg_plansight.Grouping.Cache.Recency.{
  stamp, Until, Rising, insert_sorted-end, remove-stamp, remove-kept, remove-Rising, behind,
  found_either, append-Rising,
}

-- The two maps hold the entries of `log`, which stand in the order of their ticks.
pub record Represents (c : FingerprintCache) (log : List (ℕ × Entry)) : Type 0 where
  pub ordered : c.order ≡ map stamp log
  pub same : (k : ℕ) → lookup k c.entries ≡ lookup k log
  pub unique_entries : Unique c.entries
  pub unique : Unique log
  pub same_length : length c.entries ≡ length log
  pub rising : Rising log
  pub past : (k : ℕ) (e : Entry) → lookup k log ≡ some e → e.used ≤ c.tick

-- The entry that is written under the next tick.
abbrev pub fresh_entry : FingerprintCache → Bytes → Entry
fresh_entry c text = record { text = text; used = (c.tick + 1) % 2 ^ 64 }

-- The list after an entry was used: it goes to the end.
abbrev pub used_last : ℕ → Entry → List (ℕ × Entry) → List (ℕ × Entry)
used_last hash e log = remove hash log ++ ((hash, e) ∷ [])

removed-none : (hash : ℕ) (m : List (ℕ × Entry)) → lookup hash (remove hash m) ≡ none
removed-none hash m = lookup-remove hash hash m ∙ if_true _ _ (nat_refl hash)

-- Everything but what `order` and `entries` are: of a list with a newer entry at its end.
used_last-past :
    (now hash : ℕ) (text : Bytes) (log : List (ℕ × Entry))
    → Until now log
    → (k : ℕ) (e : Entry)
    → lookup k (used_last hash (record { text = text; used = now }) log) ≡ some e
    → e.used ≤ now
used_last-past now hash text log until k e found =
    elim (found_either hash k (record { text = text; used = now }) e (remove hash log)
      (removed-none hash log) found) [
        | inl this ↦ subst (λ x. Entry.used x ≤ now) this (omega arith)
        | inr before ↦ omega (arith, until k e (remove-kept hash k e log before))
      ]

lookup-used_last :
    (k hash : ℕ) (e : Entry) (log : List (ℕ × Entry))
    → lookup k (used_last hash e log) ≡ (if hash == k then some e else lookup k log)
lookup-used_last k hash e log =
    lookup-append k hash e (remove hash log) (removed-none hash log)
    ∙ elim (Bool-cases (hash == k)) [
      | inl same ↦ if_true _ _ same ∙ sym (if_true _ _ same)
      | inr other ↦
          if_false _ _ other
          ∙ lookup-remove hash k log
          ∙ if_false _ _ other
          ∙ sym (if_false _ _ other)
    ]

-- An entry that is there is used again.
pub refresh-Represents :
    (c : FingerprintCache) (log : List (ℕ × Entry)) (hash : ℕ) (text : Bytes) (e : Entry)
    → Represents c log
    → c.tick + 1 < 2 ^ 64
    → lookup hash log ≡ some e
    → Represents (refresh c hash text e.used) (used_last hash (fresh_entry c text) log)
refresh-Represents c log hash text e r small found =
    let now = (c.tick + 1) % 2 ^ 64 in
    let until : Until now log = λ k x f. omega (arith, r.past k x f) in
    record {
      ordered =
          ap (λ o. insert_sorted now hash (remove e.used o)) r.ordered
          ∙ ap (insert_sorted now hash) (remove-stamp hash e log r.unique r.rising found)
          ∙ insert_sorted-end now hash (remove hash log) (remove-Unique hash log r.unique)
              (λ k x f. until k x (remove-kept hash k x log f))
          ∙ sym (map-append stamp (remove hash log) ((hash, fresh_entry c text) ∷ []));
      same = λ k.
          lookup-put hash k (fresh_entry c text) c.entries
          ∙ ap (λ o. if hash == k then some (fresh_entry c text) else o) (r.same k)
          ∙ sym (lookup-used_last k hash (fresh_entry c text) log);
      unique_entries = put-Unique hash _ c.entries r.unique_entries;
      unique =
          append-Unique hash _ (remove hash log) (remove-Unique hash log r.unique)
            (removed-none hash log);
      same_length =
          length-put_known hash (fresh_entry c text) e c.entries (r.same hash ∙ found)
          ∙ omega (
            arith,
            r.same_length,
            length-remove hash e log r.unique found,
            length-append (remove hash log) ((hash, fresh_entry c text) ∷ []),
          );
      rising =
          append-Rising hash _ (remove hash log) (remove-Unique hash log r.unique)
            (removed-none hash log) (λ k x f. until k x (remove-kept hash k x log f))
            (remove-Rising hash log r.rising);
      past = used_last-past now hash text log until;
    }

-- An entry is forgotten.
forget-Represents :
    (c : FingerprintCache) (log : List (ℕ × Entry)) (hash : ℕ) (e : Entry)
    → Represents c log
    → lookup hash log ≡ some e
    → Represents
        (record c { order = remove e.used c.order; entries = remove hash c.entries })
        (remove hash log)
forget-Represents c log hash e r found = record {
  ordered = ap (remove e.used) r.ordered ∙ remove-stamp hash e log r.unique r.rising found;
  same = λ k.
      lookup-remove hash k c.entries
      ∙ ap (λ o. if hash == k then none else o) (r.same k)
      ∙ sym (lookup-remove hash k log);
  unique_entries = remove-Unique hash c.entries r.unique_entries;
  unique = remove-Unique hash log r.unique;
  same_length = omega (
    arith,
    r.same_length,
    length-remove hash e log r.unique found,
    length-remove hash e c.entries r.unique_entries (r.same hash ∙ found),
  );
  rising = remove-Rising hash log r.rising;
  past = λ k x f. r.past k x (remove-kept hash k x log f);
}

abbrev pub tail {ℓ} : {A : Type ℓ} → List A → List A
tail [] = []
tail (x ∷ xs) = xs

remove_head :
    (hash : ℕ) (e : Entry) (m : List (ℕ × Entry))
    → Unique ((hash, e) ∷ m)
    → remove hash ((hash, e) ∷ m) ≡ m
unfolding remove
remove_head hash e _ (unique_cons _ _ m new q) =
    if_true _ _ (nat_refl hash) ∙ remove_absent hash m new

evict-Represents :
    (c : FingerprintCache) (log : List (ℕ × Entry))
    → Represents c log
    → Represents (evict c) (tail log)
unfolding evict_oldest lookup
evict-Represents c [] r = subst (λ o. Represents (evict_oldest o c) []) (sym r.ordered) r
evict-Represents c ((k, e) ∷ m) r =
    subst (λ o. Represents (evict_oldest o c) m) (sym r.ordered)
      (subst (Represents (record c { order = remove e.used c.order; entries = remove k c.entries }))
        (remove_head k e m r.unique)
        (forget-Represents c ((k, e) ∷ m) k e r (if_true _ _ (nat_refl k))))

-- The cache's list before a new entry is added.
abbrev pub roomy {ℓ} : {A : Type ℓ} → Bool → List A → List A
roomy full log = if full then tail log else log

roomy-kept :
    (full : Bool) (log : List (ℕ × Entry)) (k : ℕ) (e : Entry)
    → Unique log
    → lookup k (roomy full log) ≡ some e
    → lookup k log ≡ some e
roomy-kept false log k e u found = found
roomy-kept true [] k e u found = found
roomy-kept true _ k e (unique_cons j x m new q) found = behind j k x e m new found

roomy-none :
    (full : Bool) (log : List (ℕ × Entry)) (k : ℕ)
    → Unique log
    → lookup k log ≡ none
    → lookup k (roomy full log) ≡ none
roomy-none full log k u new = elim (Option-cases (lookup k (roomy full log))) [
  | inl none_left ↦ none_left
  | inr (e, found) ↦ absurd (none-ne-some e (sym new ∙ roomy-kept full log k e u found))
]

roomy-Represents :
    (full : Bool) (c : FingerprintCache) (log : List (ℕ × Entry))
    → Represents c log
    → Represents (if full then evict c else c) (roomy full log)
roomy-Represents true c log r = evict-Represents c log r
roomy-Represents false c log r = r

evict_oldest-tick :
    (order : List (ℕ × ℕ)) (c : FingerprintCache)
    → ((evict_oldest order c).tick ≡ c.tick) × ((evict_oldest order c).cap ≡ c.cap)
unfolding evict_oldest
evict_oldest-tick [] c = (refl, refl)
evict_oldest-tick (x ∷ order) c = (refl, refl)

pub roomy-tick :
    (full : Bool) (c : FingerprintCache)
    → (FingerprintCache.tick (if full then evict c else c) ≡ c.tick)
      × (FingerprintCache.cap (if full then evict c else c) ≡ c.cap)
roomy-tick true c = evict_oldest-tick c.order c
roomy-tick false c = (refl, refl)

add_entry-Represents :
    (c : FingerprintCache) (log : List (ℕ × Entry)) (hash : ℕ) (text : Bytes) (now : ℕ)
    → Represents c log
    → lookup hash log ≡ none
    → Until now log
    → now ≤ c.tick
    → Represents
        (add_entry c hash text now)
        (log ++ ((hash, record { text = text; used = now }) ∷ []))
add_entry-Represents c log hash text now r new until ticked =
    let e : Entry = record { text = text; used = now } in
    record {
      ordered =
          ap (insert_sorted now hash) r.ordered
          ∙ insert_sorted-end now hash log r.unique until
          ∙ sym (map-append stamp log ((hash, e) ∷ []));
      same = λ k.
          lookup-put hash k e c.entries
          ∙ ap (λ o. if hash == k then some e else o) (r.same k)
          ∙ sym (lookup-append k hash e log new);
      unique_entries = put-Unique hash e c.entries r.unique_entries;
      unique = append-Unique hash e log r.unique new;
      same_length =
          length-put_new hash e c.entries (r.same hash ∙ new)
          ∙ omega (arith, r.same_length, length-append log ((hash, e) ∷ []));
      rising = append-Rising hash e log r.unique new until r.rising;
      past = λ k x f. elim (found_either hash k e x log new f) [
        | inl this ↦ subst (λ y. Entry.used y ≤ c.tick) this ticked
        | inr before ↦ r.past k x before
      ];
    }

-- The cache with its clock advanced.
abbrev pub ticked : FingerprintCache → FingerprintCache
ticked c = record c { tick = (c.tick + 1) % 2 ^ 64 }

ticked-Represents :
    (c : FingerprintCache) (log : List (ℕ × Entry))
    → Represents c log
    → c.tick + 1 < 2 ^ 64
    → Represents (ticked c) log
ticked-Represents c log r small = record {
  ordered = r.ordered;
  same = r.same;
  unique_entries = r.unique_entries;
  unique = r.unique;
  same_length = r.same_length;
  rising = r.rising;
  past = λ k e f. omega (arith, r.past k e f);
}

-- A new entry comes in, after the oldest made room for it if the cache is full.
pub insert_new-Represents :
    (c : FingerprintCache) (log : List (ℕ × Entry)) (hash : ℕ) (text : Bytes)
    → Represents c log
    → c.tick + 1 < 2 ^ 64
    → lookup hash log ≡ none
    → Represents
        (insert c hash text)
        (roomy (must_evict (ticked c)) log ++ ((hash, fresh_entry c text) ∷ []))
unfolding with_room
insert_new-Represents c log hash text r small new =
    let full = must_evict (ticked c) in
    subst (λ d. Represents d (roomy full log ++ ((hash, fresh_entry c text) ∷ [])))
      (sym (insert_new c hash text (r.same hash ∙ new)))
      (add_entry-Represents (with_room c) (roomy full log) hash text ((c.tick + 1) % 2 ^ 64)
        (roomy-Represents full (ticked c) log (ticked-Represents c log r small))
        (roomy-none full log hash r.unique new)
        (λ k e f. omega (arith, r.past k e (roomy-kept full log k e r.unique f)))
        (omega (arith, (roomy-tick full (ticked c)).0)))
