-- ===== src/Grouping/Cache.antt =====
-- The bounded fingerprint cache of crates/core/src/grouping.rs and `fingerprint_for`.
pub mod Sound
pub mod Recency
pub mod Lru
pub mod Bounded
pub mod Size
use pg_plansight.Prelude.{
  ℕ, zero, suc, ◌+◌, ◌/◌, ◌%◌, ◌^◌, Bool, ◌&&◌, Option, none, some, List, [], ◌∷◌, ◌++◌, ltb, leb,
  ◌==◌, if◌then◌else◌, length, lookup, put, remove, nat_eq, bytes_key,
}
use pg_plansight.Grouping.Plans.{Bytes}

-- The pair that a hash is mapped to.
pub record Entry : Type 0 where
  pub text : Bytes
  pub used : ℕ

-- `entries` is hash -> (fingerprint, last-access tick), `order` is tick -> hash.
pub record FingerprintCache : Type 0 where
  pub cap : ℕ
  pub tick : ℕ
  pub entries : List (ℕ × Entry)
  pub order : List (ℕ × ℕ)

unfoldable pub with_capacity : ℕ → FingerprintCache
with_capacity cap = record { cap = cap; tick = 0; entries = []; order = [] }

-- `BTreeMap::insert`: the entries stand in the order of their keys.
pub insert_sorted : ℕ → ℕ → List (ℕ × ℕ) → List (ℕ × ℕ)
insert_sorted k v [] = (k, v) ∷ []
insert_sorted k v ((j, w) ∷ m) =
    let rest = insert_sorted k v m in
    if ltb k j then (k, v) ∷ (j, w) ∷ m else if k == j then (k, v) ∷ m else (j, w) ∷ rest

-- `order.remove(&old_tick); order.insert(now, hash)`
abbrev pub touch : ℕ → ℕ → ℕ → List (ℕ × ℕ) → List (ℕ × ℕ)
touch old_tick now hash order = insert_sorted now hash (remove old_tick order)

abbrev pub refresh : FingerprintCache → ℕ → Bytes → ℕ → FingerprintCache
refresh c hash fingerprint old_tick =
    let now = (c.tick + 1) % 2 ^ 64 in
    record c {
      tick = now;
      order = touch old_tick now hash c.order;
      entries = put hash (record { text = fingerprint; used = now }) c.entries;
    }

-- `FingerprintCache::get`.
pub get : FingerprintCache → ℕ → Option Bytes × FingerprintCache
get c hash = elim (lookup hash c.entries) [
  | none ↦ (none, c)
  | some entry ↦ (some entry.text, refresh c hash entry.text entry.used)
]

-- The least recently used entry, the first of `order`, leaves both maps.
pub evict_oldest : List (ℕ × ℕ) → FingerprintCache → FingerprintCache
evict_oldest [] c = c
evict_oldest (oldest ∷ rest) c = record c {
  order = remove oldest.0 c.order;
  entries = remove oldest.1 c.entries;
}

abbrev pub evict : FingerprintCache → FingerprintCache
evict c = evict_oldest c.order c

abbrev pub must_evict : FingerprintCache → Bool
must_evict c = ltb 0 c.cap && leb c.cap (length c.entries)

abbrev pub add_entry : FingerprintCache → ℕ → Bytes → ℕ → FingerprintCache
add_entry c hash fingerprint now = record c {
  entries = put hash (record { text = fingerprint; used = now }) c.entries;
  order = insert_sorted now hash c.order;
}

-- `FingerprintCache::insert`.
pub insert : FingerprintCache → ℕ → Bytes → FingerprintCache
insert c hash fingerprint = elim (lookup hash c.entries) [
  | some entry ↦ refresh c hash fingerprint entry.used
  | none ↦
      let now = (c.tick + 1) % 2 ^ 64 in
      let c1 = record c { tick = now } in
      add_entry (if must_evict c1 then evict c1 else c1) hash fingerprint now
]

-- `FingerprintCache::clear`.
pub clear : FingerprintCache → FingerprintCache
clear c = record c { entries = []; order = []; tick = 0 }

abbrev pub hex_digit : ℕ → ℕ
hex_digit d = if ltb d 10 then 48 + d else 87 + d

-- The `n` last hexadecimal digits of a number.
pub hex_digits : ℕ → ℕ → Bytes
hex_digits zero h = []
hex_digits (suc n) h = hex_digits n (h / 16) ++ (hex_digit (h % 16) ∷ [])

-- xxh3_64, of another crate, and the fingerprint that `normalize_query_enhanced` gives, if any.
-- Nothing is assumed of either here.
pub record Hashing : Type 0 where
  pub query_hash : Bytes → ℕ
  pub normalized : Bytes → Option Bytes

-- A statement that is not normalised is its own group, named by its hash.
abbrev pub or_hash : Option Bytes → ℕ → Bytes
or_hash (some fingerprint) hash = fingerprint
or_hash none hash = hex_digits 16 hash

abbrev pub computed : Hashing → Bytes → Bytes
computed h query_text = or_hash (h.normalized query_text) (h.query_hash query_text)

-- What `fingerprint_for` does with the answer of `get`.
pub or_compute : Hashing → Bytes → Option Bytes × FingerprintCache → Bytes × FingerprintCache
or_compute h query_text (some cached, c) = (cached, c)
or_compute h query_text (none, c) =
    let fingerprint = computed h query_text in
    (fingerprint, insert c (h.query_hash query_text) fingerprint)

pub fingerprint_for : Hashing → FingerprintCache → Bytes → Bytes × FingerprintCache
fingerprint_for h c query_text = or_compute h query_text (get c (h.query_hash query_text))

-- `format!("{fingerprint}\u{1f}{database}")`
abbrev pub group_key : Bytes → Bytes → Bytes
group_key fingerprint database = fingerprint ++ (31 ∷ database)

abbrev pub keyed : Bytes → Option Bytes → Bytes
keyed fingerprint none = fingerprint
keyed fingerprint (some database) = group_key fingerprint database
