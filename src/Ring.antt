-- ===== src/Ring.antt =====
-- crates/pg_extension/src/ring.rs: the shared-memory ring of captured plans.
pub mod Inv
pub mod Refine
pub mod History
pub mod Accounting
pub mod Overhead
pub mod Drain
mod Tests
use pg_plansight.Prelude.{
  ℕ, zero, suc, ◌+◌, ◌-◌, ◌*◌, ◌%◌, ◌^◌, min, List, [], ◌∷◌, ◌++◌, ltb, leb, ◌==◌, if◌then◌else◌,
  length, take, drop, replicate,
}

abbrev pub sql_cap : ℕ
sql_cap = 1024

abbrev pub plan_cap : ℕ
plan_cap = 4096

abbrev pub ring_cap : ℕ
ring_cap = 256

abbrev pub u32_mod : ℕ
u32_mod = 2 ^ 32

abbrev pub u64_mod : ℕ
u64_mod = 2 ^ 64

abbrev pub u128_mod : ℕ
u128_mod = 2 ^ 128

abbrev pub u64_max : ℕ
u64_max = u64_mod - 1

abbrev pub u128_max : ℕ
u128_max = u128_mod - 1

-- An `f64`, an `i64` and a byte are only moved here: each is the number of its bit pattern.
pub record Rec : Type 0 where
  pub epoch_secs : ℕ
  pub duration_ms : ℕ
  pub query_id : ℕ
  pub db_oid : ℕ
  pub sql_len : ℕ
  pub plan_len : ℕ
  pub sql : List ℕ
  pub plan : List ℕ

-- `Oid::INVALID` is 0, and the bits of `0.0` are 0.
pub rec_zeroed : Rec
rec_zeroed = record {
  epoch_secs = 0;
  duration_ms = 0;
  query_id = 0;
  db_oid = 0;
  sql_len = 0;
  plan_len = 0;
  sql = replicate sql_cap 0;
  plan = replicate plan_cap 0;
}

pub record Ring : Type 0 where
  pub len : ℕ
  pub dropped_total : ℕ
  pub captured_total : ℕ
  pub last_drain_epoch : ℕ
  pub ovh_count : ℕ
  pub ovh_sum_ns : ℕ
  pub ovh_sumsq_ns : ℕ
  pub ovh_min_ns : ℕ
  pub ovh_max_ns : ℕ
  pub recs : List Rec

-- `Ring::default`.
pub fresh : Ring
fresh = record {
  len = 0;
  dropped_total = 0;
  captured_total = 0;
  last_drain_epoch = 0;
  ovh_count = 0;
  ovh_sum_ns = 0;
  ovh_sumsq_ns = 0;
  ovh_min_ns = u64_max;
  ovh_max_ns = 0;
  recs = replicate ring_cap rec_zeroed;
}

-- The destination after the copy, and the returned length. `n as u32` cannot cut off anything:
-- a slot has `sql_cap` or `plan_cap` bytes.
pub copy_truncated : List ℕ → List ℕ → List ℕ × ℕ
copy_truncated dst src =
    let n = min (length src) (length dst) in (take n src ++ drop n dst, n % u32_mod)

-- The arguments of one capture.
pub record Push : Type 0 where
  pub epoch_secs : ℕ
  pub duration_ms : ℕ
  pub query_id : ℕ
  pub db_oid : ℕ
  pub sql : List ℕ
  pub plan : List ℕ

-- The slot after its fields were assigned in place.
pub fill_slot : Push → Rec → Rec
fill_slot p slot =
    let (sql, sql_len) = copy_truncated slot.sql p.sql in
    let (plan, plan_len) = copy_truncated slot.plan p.plan in
    record {
      epoch_secs = p.epoch_secs;
      duration_ms = p.duration_ms;
      query_id = p.query_id;
      db_oid = p.db_oid;
      sql_len = sql_len;
      plan_len = plan_len;
      sql = sql;
      plan = plan;
    }

-- `self.recs[idx]`, updated in place; out of range the source panics and this changes nothing.
pub update_slot : (Rec → Rec) → List Rec → ℕ → List Rec
update_slot f [] i = []
update_slot f (r ∷ rs) zero = f r ∷ rs
update_slot f (r ∷ rs) (suc i) = r ∷ update_slot f rs i

-- `+=` wraps, as in a release build.
pub push_rec : Ring → Push → Ring
push_rec r p =
    if leb ring_cap r.len
    then record r { dropped_total = (r.dropped_total + 1) % u64_mod }
    else record r {
      recs = update_slot (fill_slot p) r.recs r.len;
      len = (r.len + 1) % u32_mod;
      captured_total = (r.captured_total + 1) % u64_mod;
    }

-- The buffer's new content, the cumulative dropped count and the ring. `out.clear()` makes the
-- buffer's old content irrelevant; `now` is the clock's reading.
pub take_recs_into : Ring → ℕ → List Rec × ℕ × Ring
take_recs_into r now =
    (take r.len r.recs, r.dropped_total, record r { len = 0; last_drain_epoch = now })

abbrev pub saturating_add : ℕ → ℕ → ℕ → ℕ
saturating_add bound a b = min (a + b) bound

-- `ns` is a `u64`.
pub record_overhead : Ring → ℕ → Ring
record_overhead r ns = record r {
  ovh_count = (r.ovh_count + 1) % u64_mod;
  ovh_sum_ns = saturating_add u64_max r.ovh_sum_ns ns;
  ovh_sumsq_ns = saturating_add u128_max r.ovh_sumsq_ns (ns * ns % u128_mod);
  ovh_min_ns = if ltb ns r.ovh_min_ns then ns else r.ovh_min_ns;
  ovh_max_ns = if ltb r.ovh_max_ns ns then ns else r.ovh_max_ns;
}

pub reset_overhead : Ring → Ring
reset_overhead r = record r {
  ovh_count = 0;
  ovh_sum_ns = 0;
  ovh_sumsq_ns = 0;
  ovh_min_ns = u64_max;
  ovh_max_ns = 0;
}

pub overhead_snapshot : Ring → ℕ × ℕ × ℕ × ℕ × ℕ
overhead_snapshot r =
    let least : ℕ = if r.ovh_count == 0 then 0 else r.ovh_min_ns in
    (r.ovh_count, r.ovh_sum_ns, r.ovh_sumsq_ns, least, r.ovh_max_ns)

-- The public `push`, all of it under the exclusive lock; `elapsed` is read from the clock.
pub push : Ring → Push → ℕ → Ring
push r p elapsed = record_overhead (push_rec r p) (elapsed % u64_mod)

pub stats : Ring → ℕ × ℕ × ℕ × ℕ
stats r = (r.len, r.captured_total, r.dropped_total, r.last_drain_epoch)
