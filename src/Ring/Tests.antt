-- ===== src/Ring/Tests.antt =====
-- Runs of the ring model (crates/pg_extension/src/ring.rs).
use pg_plansight.Prelude.{◌+◌, ◌≡◌, refl, List, [], ◌∷◌, map, arith, length}
use pg_plansight.Ring.{
  Ring, Push, fresh, push_rec, record_overhead, reset_overhead, overhead_snapshot, copy_truncated,
}
use pg_plansight.Ring.Inv.{IsValid, fresh-IsValid, push_rec-IsValid}
use pg_plansight.Ring.Refine.{pending, view, log, append, push_rec_refines}
use pg_plansight.Ring.History.{
  Call, pushes, drains, measures, resets, run, run_log, run-IsValid, run_refines,
}
use pg_plansight.Ring.Accounting.{pushed, run_accounts}
use pg_plansight.Ring.Overhead.{record_all, overhead_snapshot_lem}
use pg_plansight.Ring.Drain.{drain, drain_lem, own}

abbrev select_1 : Push
select_1 = record {
  epoch_secs = 0;
  duration_ms = 0;
  query_id = 42;
  db_oid = 5;
  sql = 0x73 ∷ 0x31 ∷ [];
  plan = 0x53 ∷ [];
}

abbrev select_2 : Push
select_2 = record select_1 { query_id = 0; db_oid = 6 }

abbrev history : List Call
history =
    pushes select_1 100
    ∷ pushes select_2 300
    ∷ drains 7
    ∷ pushes select_1 50
    ∷ resets
    ∷ measures 9
    ∷ []

abbrev one_pushed : Ring
one_pushed = push_rec (push_rec fresh select_1) select_2

one_pushed-IsValid : IsValid one_pushed
one_pushed-IsValid = push_rec-IsValid select_2 (push_rec-IsValid select_1 fresh-IsValid)

copy_truncated_cuts : copy_truncated (0 ∷ 0 ∷ []) (7 ∷ 8 ∷ 9 ∷ []) ≡ (7 ∷ 8 ∷ [], 2)
unfolding copy_truncated
copy_truncated_cuts = refl

copy_truncated_pads : copy_truncated (1 ∷ 2 ∷ 3 ∷ []) (7 ∷ []) ≡ (7 ∷ 2 ∷ 3 ∷ [], 1)
unfolding copy_truncated
copy_truncated_pads = refl

overhead_accumulates :
    overhead_snapshot (record_overhead (record_overhead (reset_overhead fresh) 100) 300)
    ≡ (2, 400, 100000, 100, 300)
unfolding overhead_snapshot record_overhead reset_overhead fresh
overhead_accumulates = refl

run-IsValid_example : IsValid (run fresh history).0
run-IsValid_example = run-IsValid fresh history fresh-IsValid

run_refines_example :
    let (r, out) = run fresh history in (log r, map view out) ≡ run_log (log fresh) history
run_refines_example = run_refines fresh history fresh-IsValid

push_rec_refines_example : log (push_rec one_pushed select_1) ≡ append (log one_pushed) select_1
push_rec_refines_example = push_rec_refines select_1 one_pushed-IsValid

run_accounts_example :
    let (r, out) = run fresh history in
    (r.captured_total + r.dropped_total ≡ pushed history) × (r.captured_total ≡ length out + r.len)
run_accounts_example = run_accounts history (omega arith)

overhead_snapshot_example :
    overhead_snapshot (record_all (reset_overhead fresh) (300 ∷ 100 ∷ []))
    ≡ (2, 400, 100000, 100, 300)
overhead_snapshot_example = overhead_snapshot_lem fresh (300 ∷ 100 ∷ []) (omega arith) (omega arith)

drain_example :
    let ((out, dropped, foreign), ring') = drain (λ t. t) (λ bytes. bytes) one_pushed 5 9 in
    (out ≡ own (λ t. t) (λ bytes. bytes) 5 (pending one_pushed))
    × (foreign + length out ≡ one_pushed.len)
    × (dropped ≡ one_pushed.dropped_total)
    × (pending ring' ≡ [])
    × (ring'.captured_total ≡ one_pushed.captured_total)
    × (ring'.dropped_total ≡ one_pushed.dropped_total)
drain_example = drain_lem (λ t. t) (λ bytes. bytes) 5 9 one_pushed-IsValid
