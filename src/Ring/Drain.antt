-- ===== src/Ring/Drain.antt =====
-- `drain` of crates/pg_extension/src/ring.rs, with `Capture` of crates/pg_extension/src/aggregate.rs.
use pg_plansight.Prelude.{
  ℕ, ◌+◌, ◌%◌, ◌<◌, ◌≡◌, refl, List, [], ◌∷◌, map, arith, ◌==◌, if◌then◌else◌, length, take,
  length-take,
}
use pg_plansight.Ring.{Rec, Ring, Push, u64_mod, take_recs_into}
use pg_plansight.Ring.Inv.{IsValid}
use pg_plansight.Ring.Refine.{view, pending}

pub record Capture : Type 0 where
  pub timestamp : ℕ
  pub duration_ms : ℕ
  pub query_text : List ℕ
  pub plan_text : List ℕ
  pub query_id : ℕ

-- `epoch_to_utc` turns the bits of an `f64` into an instant by chrono; `from_utf8_lossy` decodes
-- bytes.
module _ (epoch_to_utc : ℕ → ℕ) (from_utf8_lossy : List ℕ → List ℕ) where
  pub to_capture : Rec → Capture
  to_capture r = record {
    timestamp = epoch_to_utc r.epoch_secs;
    duration_ms = r.duration_ms;
    query_text = from_utf8_lossy (take r.sql_len r.sql);
    plan_text = from_utf8_lossy (take r.plan_len r.plan);
    query_id = r.query_id;
  }

  -- The records of the caller's database as captures, and the count of the others.
  pub select : ℕ → ℕ → List Rec → List Capture × ℕ
  select my_db foreign [] = ([], foreign)
  select my_db foreign (r ∷ rs) =
      let keep = r.db_oid == my_db in
      let (out, n) = select my_db (if keep then foreign else (foreign + 1) % u64_mod) rs in
      (if keep then to_capture r ∷ out else out, n)

  pub drain : Ring → ℕ → ℕ → (List Capture × ℕ × ℕ) × Ring
  drain ring my_db now =
      let (recs, dropped, ring') = take_recs_into ring now in
      let (out, foreign) = select my_db 0 recs in ((out, dropped, foreign), ring')

  -- What the drain should deliver: the pending captures of one database, in order.
  abbrev pub capture_of : Push → Capture
  capture_of p = record {
    timestamp = epoch_to_utc p.epoch_secs;
    duration_ms = p.duration_ms;
    query_text = from_utf8_lossy p.sql;
    plan_text = from_utf8_lossy p.plan;
    query_id = p.query_id;
  }

  abbrev pub own : ℕ → List Push → List Capture
  own my_db [] = []
  own my_db (p ∷ ps) =
      let rest = own my_db ps in if p.db_oid == my_db then capture_of p ∷ rest else rest

  select-own :
      (my_db foreign : ℕ) (rs : List Rec) → (select my_db foreign rs).0 ≡ own my_db (map view rs)
  unfolding select to_capture
  select-own my_db foreign [] = refl
  select-own my_db foreign (r ∷ rs) =
      ground (
        arith,
        select-own my_db (if r.db_oid == my_db then foreign else (foreign + 1) % u64_mod) rs,
      )

  select-length :
      (my_db foreign : ℕ) (rs : List Rec)
      → foreign + length rs < u64_mod
      → let (out, n) = select my_db foreign rs in n + length out ≡ foreign + length rs
  unfolding select
  select-length my_db foreign [] h = refl
  select-length my_db foreign (r ∷ rs) h = ground (
    arith,
    select-length my_db (if r.db_oid == my_db then foreign else (foreign + 1) % u64_mod) rs,
  )

  -- A drain of a valid ring delivers exactly the pending captures stamped with the caller's
  -- database, in order; every other pending record is counted as foreign, and the ring is left
  -- empty with its counters unchanged.
  pub drain_lem :
      {ring : Ring} (my_db now : ℕ)
      → IsValid ring
      → let ((out, dropped, foreign), ring') = drain ring my_db now in
        (out ≡ own my_db (pending ring))
        × (foreign + length out ≡ ring.len)
        × (dropped ≡ ring.dropped_total)
        × (pending ring' ≡ [])
        × (ring'.captured_total ≡ ring.captured_total)
        × (ring'.dropped_total ≡ ring.dropped_total)
  unfolding drain take_recs_into
  drain_lem {ring} my_db now v = (
    select-own my_db 0 _,
    omega (
      arith,
      select-length my_db 0 (take ring.len ring.recs),
      length-take ring.len ring.recs,
      v.size,
      v.within,
    ),
    refl,
    refl,
    refl,
    refl,
  )
