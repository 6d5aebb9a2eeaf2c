-- ===== src/Ring/Inv.antt =====
-- The representation invariant of the ring (crates/pg_extension/src/ring.rs).
use pg_plansight.Prelude.{
  ℕ, zero, suc, ◌≤◌, ◌<◌, min, ◌≡◌, refl, ap, List, [], ◌∷◌, arith, length, take, drop, replicate,
  length-replicate, length-append, length-take, length-drop,
}
use pg_plansight.Ring.{
  Rec, Ring, Push, sql_cap, plan_cap, ring_cap, u64_mod, rec_zeroed, fresh, copy_truncated,
  fill_slot, update_slot, push_rec, take_recs_into, record_overhead, reset_overhead,
}

-- A slot's arrays have their fixed sizes, and the stored lengths stay within them.
pub record IsSlot (s : Rec) : Type 0 where
  pub sql_size : length s.sql ≡ sql_cap
  pub plan_size : length s.plan ≡ plan_cap
  pub sql_within : s.sql_len ≤ sql_cap
  pub plan_within : s.plan_len ≤ plan_cap

abbrev pub Slots : List Rec → Type 0
Slots [] = Unit
Slots (s ∷ ss) = IsSlot s × Slots ss

pub record IsValid (r : Ring) : Type 0 where
  pub size : length r.recs ≡ ring_cap
  pub slots : Slots r.recs
  pub within : r.len ≤ ring_cap
  pub dropped_u64 : r.dropped_total < u64_mod
  pub captured_u64 : r.captured_total < u64_mod

length-copy_truncated : (dst src : List ℕ) → length (copy_truncated dst src).0 ≡ length dst
unfolding copy_truncated
length-copy_truncated dst src = omega (
  arith,
  length-append (take (min (length src) (length dst)) src)
      (drop (min (length src) (length dst)) dst),
  length-take (min (length src) (length dst)) src,
  length-drop (min (length src) (length dst)) dst,
)

copy_truncated-le : (dst src : List ℕ) → (copy_truncated dst src).1 ≤ length dst
unfolding copy_truncated
copy_truncated-le dst src = omega arith

fill_slot-IsSlot : (p : Push) (s : Rec) → IsSlot s → IsSlot (fill_slot p s)
unfolding fill_slot
fill_slot-IsSlot p s v = omega (
  arith,
  length-copy_truncated s.sql p.sql,
  length-copy_truncated s.plan p.plan,
  copy_truncated-le s.sql p.sql,
  copy_truncated-le s.plan p.plan,
)

pub length-update_slot :
    (f : Rec → Rec) (ss : List Rec) (i : ℕ) → length (update_slot f ss i) ≡ length ss
unfolding update_slot
length-update_slot f [] i = refl
length-update_slot f (s ∷ ss) zero = refl
length-update_slot f (s ∷ ss) (suc i) = ap suc (length-update_slot f ss i)

update_slot-Slots :
    (p : Push) (ss : List Rec) (i : ℕ) → Slots ss → Slots (update_slot (fill_slot p) ss i)
unfolding update_slot
update_slot-Slots p [] i v = v
update_slot-Slots p (s ∷ ss) zero v = (fill_slot-IsSlot p s v.0, v.1)
update_slot-Slots p (s ∷ ss) (suc i) v = (v.0, update_slot-Slots p ss i v.1)

replicate-Slots : (n : ℕ) → Slots (replicate n rec_zeroed)
unfolding replicate rec_zeroed
replicate-Slots zero = tt
replicate-Slots (suc n) = (
  omega (arith, length-replicate sql_cap (zero), length-replicate plan_cap (zero)),
  replicate-Slots n,
)

pub fresh-IsValid : IsValid fresh
unfolding fresh
fresh-IsValid = record {
  size = length-replicate ring_cap rec_zeroed;
  slots = replicate-Slots ring_cap;
  within = omega arith;
  dropped_u64 = omega arith;
  captured_u64 = omega arith;
}

pub push_rec-IsValid : {r : Ring} (p : Push) → IsValid r → IsValid (push_rec r p)
unfolding push_rec
push_rec-IsValid {r} p v =
    ground (
      arith,
      length-update_slot (fill_slot p) r.recs r.len,
      update_slot-Slots p r.recs r.len v.slots,
    )

pub take_recs_into-IsValid : {r : Ring} (now : ℕ) → IsValid r → IsValid (take_recs_into r now).2
unfolding take_recs_into
take_recs_into-IsValid now v = record {
  size = v.size;
  slots = v.slots;
  within = omega arith;
  dropped_u64 = v.dropped_u64;
  captured_u64 = v.captured_u64;
}

pub record_overhead-IsValid : {r : Ring} (ns : ℕ) → IsValid r → IsValid (record_overhead r ns)
unfolding record_overhead
record_overhead-IsValid ns v = record {
  size = v.size;
  slots = v.slots;
  within = v.within;
  dropped_u64 = v.dropped_u64;
  captured_u64 = v.captured_u64;
}

pub reset_overhead-IsValid : {r : Ring} → IsValid r → IsValid (reset_overhead r)
unfolding reset_overhead
reset_overhead-IsValid v = record {
  size = v.size;
  slots = v.slots;
  within = v.within;
  dropped_u64 = v.dropped_u64;
  captured_u64 = v.captured_u64;
}
