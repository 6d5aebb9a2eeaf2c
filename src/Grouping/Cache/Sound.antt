-- ===== src/Grouping/Cache/Sound.antt =====
-- What the fingerprint cache of crates/core/src/grouping.rs answers: the fingerprint that is
-- computed without it, as long as no two statements of a run with different fingerprints share a
-- hash.
use pg_plansight.Prelude.{
  ℕ, ◌+◌, ◌%◌, ◌^◌, ◌≡◌, refl, sym, ap, subst, ◌∙◌, inl, inr, Bool, true, false, none, some, List,
  [], ◌∷◌, ◌==◌, if◌then◌else◌, ==→≡, Bool-cases, if_true, if_false, Option-cases, lookup, put,
  lookup-put, lookup-remove, nat_eq, bytes_key,
}
use mathlib.Core.Option.{some-injective, none-ne-some}
use pg_plansight.Grouping.Plans.{Bytes}
use pg_plansight.Grouping.Cache.{
  Entry, FingerprintCache, refresh, get, evict_oldest, evict, must_evict, add_entry, insert,
  Hashing, computed, or_compute, fingerprint_for,
}

-- The statements in `Statement` do not collide.
abbrev pub Separate : Hashing → (Bytes → Type 0) → Type 0
Separate h Statement =
    (a b : Bytes)
    → Statement a
    → Statement b
    → h.query_hash a ≡ h.query_hash b
    → computed h a ≡ computed h b

-- Every statement that is in the cache is there with its fingerprint.
abbrev pub IsSound : Hashing → (Bytes → Type 0) → FingerprintCache → Type 0
IsSound h Statement c =
    (t : Bytes)
    → Statement t
    → (e : Entry) → lookup (h.query_hash t) c.entries ≡ some e
    → e.text ≡ computed h t

pub get_hit :
    (c : FingerprintCache) (hash : ℕ) (e : Entry)
    → lookup hash c.entries ≡ some e
    → get c hash ≡ (some e.text, refresh c hash e.text e.used)
unfolding get
get_hit c hash e present = rw (get, present) refl

pub get_miss :
    (c : FingerprintCache) (hash : ℕ) → lookup hash c.entries ≡ none → get c hash ≡ (none, c)
unfolding get
get_miss c hash missing = rw (get, missing) refl

pub insert_known :
    (c : FingerprintCache) (hash : ℕ) (f : Bytes) (e : Entry)
    → lookup hash c.entries ≡ some e
    → insert c hash f ≡ refresh c hash f e.used
unfolding insert
insert_known c hash f e present = rw (insert, present) refl

-- The cache before a new entry is added.
unfoldable pub with_room : FingerprintCache → FingerprintCache
with_room c =
    let c1 = record c { tick = (c.tick + 1) % 2 ^ 64 } in if must_evict c1 then evict c1 else c1

pub insert_new :
    (c : FingerprintCache) (hash : ℕ) (f : Bytes)
    → lookup hash c.entries ≡ none
    → insert c hash f ≡ add_entry (with_room c) hash f ((c.tick + 1) % 2 ^ 64)
unfolding insert with_room
insert_new c hash f missing = rw (insert, missing) refl

-- Nothing comes in by making room.
evict-lookup :
    (order : List (ℕ × ℕ)) (c : FingerprintCache) (k : ℕ) (e : Entry)
    → lookup k (evict_oldest order c).entries ≡ some e
    → lookup k c.entries ≡ some e
unfolding evict_oldest
evict-lookup [] c k e found = found
evict-lookup (oldest ∷ rest) c k e found = elim (Bool-cases (oldest.1 == k)) [
  | inl gone ↦ absurd (none-ne-some e (sym (if_true _ _ gone) ∙ removed))
  | inr kept ↦ sym (if_false _ _ kept) ∙ removed
]
  where
    removed : (if oldest.1 == k then none else lookup k c.entries) ≡ some e
    removed = sym (lookup-remove oldest.1 k c.entries) ∙ found

chosen-lookup :
    (b : Bool) (c : FingerprintCache) (k : ℕ) (e : Entry)
    → lookup k (FingerprintCache.entries (if b then evict c else c)) ≡ some e
    → lookup k c.entries ≡ some e
chosen-lookup true c k e found = evict-lookup c.order c k e found
chosen-lookup false c k e found = found

with_room-lookup :
    (c : FingerprintCache) (k : ℕ) (e : Entry)
    → lookup k (with_room c).entries ≡ some e
    → lookup k c.entries ≡ some e
unfolding with_room
with_room-lookup c k e found =
    let c1 = record c { tick = (c.tick + 1) % 2 ^ 64 } in chosen-lookup (must_evict c1) c1 k e found

module _ (h : Hashing) (Statement : Bytes → Type 0) (separate : Separate h Statement) where
  put-IsSound :
      (c d : FingerprintCache) (t : Bytes) (now : ℕ)
      → Statement t
      → IsSound h Statement c
      → d.entries ≡ put (h.query_hash t) (record { text = computed h t; used = now }) c.entries
      → IsSound h Statement d
  put-IsSound c d t now s sound eq u su e found =
      elim (Bool-cases (h.query_hash t == h.query_hash u)) [
        | inl same ↦
            sym (ap (λ x. x.text) (some-injective _ _ (sym (if_true _ _ same) ∙ looked)))
            ∙ separate t u s su (==→≡ _ _ same)
        | inr other ↦ sound u su e (sym (if_false _ _ other) ∙ looked)
      ]
    where
      looked :
          (if h.query_hash t == h.query_hash u
            then some (record { text = computed h t; used = now })
            else lookup (h.query_hash u) c.entries)
          ≡ some e
      looked =
          sym (lookup-put (h.query_hash t) (h.query_hash u) _ c.entries)
          ∙ sym (ap (lookup (h.query_hash u)) eq)
          ∙ found

  refresh-IsSound :
      (c : FingerprintCache) (t : Bytes) (used : ℕ)
      → Statement t
      → IsSound h Statement c
      → IsSound h Statement (refresh c (h.query_hash t) (computed h t) used)
  refresh-IsSound c t used s sound =
      put-IsSound c (refresh c (h.query_hash t) (computed h t) used) t _ s sound refl

  insert-IsSound :
      (c : FingerprintCache) (t : Bytes)
      → Statement t
      → IsSound h Statement c
      → IsSound h Statement (insert c (h.query_hash t) (computed h t))
  insert-IsSound c t s sound = elim (Option-cases (lookup (h.query_hash t) c.entries)) [
    | inl missing ↦ subst (IsSound h Statement) (sym (insert_new c _ _ missing)) (
        put-IsSound (with_room c)
          (add_entry (with_room c) (h.query_hash t) (computed h t) ((c.tick + 1) % 2 ^ 64)) t _ s
          (λ u su e f. sound u su e (with_room-lookup c _ e f)) refl)
    | inr (e, present) ↦
        subst (IsSound h Statement) (sym (insert_known c _ _ e present))
          (refresh-IsSound c t e.used s sound)
  ]

  -- Whatever was put in the cache and was evicted from it, as long as what is there is right and
  -- the statements of a run do not collide, `fingerprint_for` returns the fingerprint of its
  -- statement that is computed without a cache, and leaves a cache of which the same holds.
  pub fingerprint_for-IsSound :
      (c : FingerprintCache) (t : Bytes)
      → Statement t
      → IsSound h Statement c
      → ((fingerprint_for h c t).0 ≡ computed h t) × IsSound h Statement (fingerprint_for h c t).1
  unfolding fingerprint_for or_compute
  fingerprint_for-IsSound c t s sound = elim (Option-cases (lookup (h.query_hash t) c.entries)) [
    | inl missing ↦
        subst (Right c t) (sym (ap (or_compute h t) (get_miss c _ missing)))
          (refl, insert-IsSound c t s sound)
    | inr (e, present) ↦
        let known = sound t s e present in
        subst (Right c t) (sym (ap (or_compute h t) (get_hit c _ e present))) (
          known,
          subst (λ f. IsSound h Statement (refresh c (h.query_hash t) f e.used)) (sym known)
              (refresh-IsSound c t e.used s sound),
        )
  ]
    where
      Right : FingerprintCache → Bytes → Bytes × FingerprintCache → Type 0
      Right c t r = (r.0 ≡ computed h t) × IsSound h Statement r.1
