-- ===== src/Ring/Accounting.antt =====
-- The counters of the ring (crates/pg_extension/src/ring.rs) over whole histories.
use pg_plansight.Prelude.{
  ℕ, suc, ◌+◌, ◌<◌, ◌≡◌, refl, sym, subst, List, [], ◌∷◌, map, arith, length, length-append,
  length-map,
}
use pg_plansight.Ring.{Push, u64_mod, fresh}
use pg_plansight.Ring.Inv.{fresh-IsValid}
use pg_plansight.Ring.Refine.{Log, log, append, truncated, view, length-pending}
use pg_plansight.Ring.History.{
  Call, pushes, drains, measures, resets, run, step_log, run_log, run_refines, run-IsValid,
}

abbrev pub pushed : List Call → ℕ
pushed [] = 0
pushed (pushes p elapsed ∷ cs) = suc (pushed cs)
pushed (_ ∷ cs) = pushed cs

-- What is true of a log that handed out `out` records after `n` pushes.
record Balanced (l : Log) (out n : ℕ) : Type 0 where
  every : l.captured + l.dropped ≡ n
  kept : l.captured ≡ out + length l.queue

append-Balanced :
    (l : Log) (p : Push) {out n : ℕ}
    → suc n < u64_mod
    → Balanced l out n
    → Balanced (append l p) out (suc n)
unfolding append
append-Balanced l p h b = ground (arith, length-append l.queue (truncated p ∷ []))

run_log-Balanced :
    (l : Log) (cs : List Call) (out n : ℕ)
    → n + pushed cs < u64_mod
    → Balanced l out n
    → Balanced (run_log l cs).0 (out + length (run_log l cs).1) (n + pushed cs)
unfolding run_log step_log
run_log-Balanced l [] out n h b = omega arith
run_log-Balanced l (pushes p elapsed ∷ cs) out n h b = omega (
  arith,
  run_log-Balanced (append l p) cs out (suc n) (omega arith) (append-Balanced l p (omega arith) b),
)
run_log-Balanced l (drains now ∷ cs) out n h b = omega (
  arith,
  length-append l.queue (run_log (record l { queue = [] }) cs).1,
  run_log-Balanced (record l { queue = [] }) cs (out + length l.queue) n h (omega arith),
)
run_log-Balanced l (measures ns ∷ cs) out n h b = run_log-Balanced l cs out n h b
run_log-Balanced l (resets ∷ cs) out n h b = run_log-Balanced l cs out n h b

log-fresh-Balanced : Balanced (log fresh) 0 0
unfolding fresh
log-fresh-Balanced = record { every = omega arith; kept = refl }

run_log-Balanced_zero :
    (cs : List Call)
    → pushed cs < u64_mod
    → Balanced (run_log (log fresh) cs).0 (length (run_log (log fresh) cs).1) (pushed cs)
run_log-Balanced_zero cs h =
    omega (arith, run_log-Balanced (log fresh) cs 0 0 (omega arith) log-fresh-Balanced)

-- From a fresh ring and over fewer than 2^64 pushes, no capture goes missing: each is counted once,
-- as accepted or as dropped, and the accepted ones are those handed out and those pending.
pub run_accounts :
    (cs : List Call)
    → pushed cs < u64_mod
    → let (r, out) = run fresh cs in
      (r.captured_total + r.dropped_total ≡ pushed cs) × (r.captured_total ≡ length out + r.len)
run_accounts cs h = omega (
  arith,
  balanced,
  length-map view (run fresh cs).1,
  length-pending (run-IsValid fresh cs fresh-IsValid),
)
  where
    balanced : Balanced (log (run fresh cs).0) (length (map view (run fresh cs).1)) (pushed cs)
    balanced =
        subst (λ x. Balanced x.0 (length x.1) (pushed cs))
          (sym (run_refines fresh cs fresh-IsValid)) (run_log-Balanced_zero cs h)
