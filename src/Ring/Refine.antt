-- ===== src/Ring/Refine.antt =====
-- The ring (crates/pg_extension/src/ring.rs) against a bounded log of captures that forgets slots
-- and lengths.
use pg_plansight.Prelude.{
  ℕ, zero, suc, ◌+◌, ◌%◌, ◌<◌, min, ◌≡◌, refl, ap, ap₂, ◌∙◌, inl, inr, false, List, [], ◌∷◌, ◌++◌,
  map, arith, leb, if◌then◌else◌, leb→lt, Bool-cases, length, take, drop, length-take,
  take-append_length, length-map,
}
use pg_plansight.Ring.{
  Rec, Ring, Push, sql_cap, plan_cap, ring_cap, u32_mod, u64_mod, copy_truncated, fill_slot,
  update_slot, push_rec, take_recs_into,
}
use pg_plansight.Ring.Inv.{IsSlot, Slots, IsValid}

-- A capture as a reader sees it: the text of a slot up to its stored length.
abbrev pub view : Rec → Push
view s = record {
  epoch_secs = s.epoch_secs;
  duration_ms = s.duration_ms;
  query_id = s.query_id;
  db_oid = s.db_oid;
  sql = take s.sql_len s.sql;
  plan = take s.plan_len s.plan;
}

-- What the ring keeps of a capture.
abbrev pub truncated : Push → Push
truncated p = record p { sql = take sql_cap p.sql; plan = take plan_cap p.plan }

abbrev pub pending : Ring → List Push
pending r = map view (take r.len r.recs)

-- The abstract log.
pub record Log : Type 0 where
  pub queue : List Push
  pub dropped : ℕ
  pub captured : ℕ

abbrev pub log : Ring → Log
log r = record { queue = pending r; dropped = r.dropped_total; captured = r.captured_total }

unfoldable pub append : Log → Push → Log
append l p =
    if leb ring_cap (length l.queue)
    then record l { dropped = (l.dropped + 1) % u64_mod }
    else record l { queue = l.queue ++ (truncated p ∷ []); captured = (l.captured + 1) % u64_mod }

-- A valid ring holds as many captures as `len` says.
pub length-pending : {r : Ring} → IsValid r → length (pending r) ≡ r.len
length-pending {r} v =
    omega (arith, length-map view (take r.len r.recs), length-take r.len r.recs, v.size, v.within)

min-zero : (m : ℕ) → min 0 (suc m) ≡ 0
min-zero m = omega arith

min-zero' : (m : ℕ) → min m 0 ≡ 0
min-zero' m = omega arith

min-suc : (a b : ℕ) → min (suc a) (suc b) ≡ suc (min a b)
min-suc a b = omega arith

take-append_of_length {ℓ} :
    {A : Type ℓ} (xs ys : List A) (n : ℕ) → length xs ≡ n → take n (xs ++ ys) ≡ xs
take-append_of_length xs ys n e = rw (← e) (take-append_length xs ys)

take-min {ℓ} : {A : Type ℓ} (xs : List A) (m : ℕ) → take (min (length xs) m) xs ≡ take m xs
take-min [] zero = refl
take-min [] (suc m) = rw (min-zero m)
take-min (x ∷ xs) zero = rw (min-zero' (suc (length xs)))
take-min (x ∷ xs) (suc m) = rw (min-suc (length xs) m) (ap (◌∷◌ x) (take-min xs m))

-- The stored bytes are the source's first bytes, as many as the slot takes.
take-copy_truncated :
    (dst src : List ℕ)
    → length dst < u32_mod
    → let (bytes, n) = copy_truncated dst src in take n bytes ≡ take (length dst) src
unfolding copy_truncated
take-copy_truncated dst src h =
    rw (kept, take-append_of_length (take n src) (drop n dst) n all) (take-min src (length dst))
  where
    n : ℕ
    n = min (length src) (length dst)

    kept : n % u32_mod ≡ n
    kept = omega arith

    all : length (take n src) ≡ n
    all = omega (arith, length-take n src)

view-fill_slot : (p : Push) (s : Rec) → IsSlot s → view (fill_slot p s) ≡ truncated p
unfolding fill_slot
view-fill_slot p s v =
    ap₂ (λ a b. record p { sql = a; plan = b })
      (take-copy_truncated s.sql p.sql (omega arith) ∙ ap (λ k. take k p.sql) v.sql_size)
      (take-copy_truncated s.plan p.plan (omega arith) ∙ ap (λ k. take k p.plan) v.plan_size)

map-update_slot :
    (p : Push) (ss : List Rec) (i : ℕ)
    → Slots ss
    → i < length ss
    → map view (take (suc i) (update_slot (fill_slot p) ss i))
      ≡ map view (take i ss) ++ (truncated p ∷ [])
unfolding update_slot
map-update_slot p [] i v h = absurd (omega arith)
map-update_slot p (s ∷ ss) zero v h = ap (λ q. q ∷ []) (view-fill_slot p s v.0)
map-update_slot p (s ∷ ss) (suc i) v h =
    ap (◌∷◌ (view s)) (map-update_slot p ss i v.1 (omega arith))

next_len : {r : Ring} → IsValid r → leb ring_cap r.len ≡ false → (r.len + 1) % u32_mod ≡ suc r.len
next_len v room = omega (arith, leb→lt, v.within)

in_range : {r : Ring} → IsValid r → leb ring_cap r.len ≡ false → r.len < length r.recs
in_range v room = omega (arith, leb→lt, v.size)

-- `push_rec` acts on a valid ring as the append of the bounded log.
pub push_rec_refines : {r : Ring} (p : Push) → IsValid r → log (push_rec r p) ≡ append (log r) p
unfolding push_rec append
push_rec_refines {r} p v = elim (Bool-cases (leb ring_cap r.len)) [
  | inl full ↦ rw (length-pending v, full, push_rec)
  | inr room ↦
      rw (length-pending v, room, push_rec)
        (ap
          (λ q. record {
            queue = q;
            dropped = r.dropped_total;
            captured = (r.captured_total + 1) % u64_mod;
          })
          (rw (next_len v room) (map-update_slot p r.recs r.len v.slots (in_range v room))))
]

-- A drain hands out the log's queue in order, and leaves the queue empty.
pub take_recs_into_refines :
    (r : Ring) (now : ℕ)
    → let (out, dropped, r') = take_recs_into r now in
      (map view out ≡ pending r)
      × (dropped ≡ r.dropped_total)
      × (log r' ≡ record (log r) { queue = [] })
unfolding take_recs_into
take_recs_into_refines r now = (refl, refl, refl)
