-- ===== src/Ring/History.antt =====
-- Whole histories of the ring (crates/pg_extension/src/ring.rs): each call runs under the exclusive
-- lock, so any interleaving of the backends and the worker is a list of calls.
use pg_plansight.Prelude.{ℕ, ◌%◌, ◌≡◌, refl, ap, ◌∙◌, List, [], ◌∷◌, ◌++◌, map}
use mathlib.Core.List.{map-append}
use pg_plansight.Ring.{
  Rec, Ring, Push, u64_mod, push_rec, take_recs_into, record_overhead, reset_overhead, push,
}
use pg_plansight.Ring.Inv.{
  IsValid, push_rec-IsValid, take_recs_into-IsValid, record_overhead-IsValid,
  reset_overhead-IsValid,
}
use pg_plansight.Ring.Refine.{Log, log, view, append, push_rec_refines}

pub data Call : Type 0 where
  pushes : Push → ℕ → Call
  drains : ℕ → Call
  measures : ℕ → Call
  resets : Call

-- The ring after a call, and the records that the call hands out.
unfoldable pub step : Ring → Call → Ring × List Rec
step r (pushes p elapsed) = (push r p elapsed, [])
step r (drains now) = let (out, _, r') = take_recs_into r now in (r', out)
step r (measures ns) = (record_overhead r ns, [])
step r resets = (reset_overhead r, [])

-- The ring after a history, and all records handed out, in order.
unfoldable pub run : Ring → List Call → Ring × List Rec
run r [] = (r, [])
run r (c ∷ cs) = let (r', out) = step r c in let (r'', rest) = run r' cs in (r'', out ++ rest)

unfoldable pub step_log : Log → Call → Log × List Push
step_log l (pushes p elapsed) = (append l p, [])
step_log l (drains now) = (record l { queue = [] }, l.queue)
step_log l (measures ns) = (l, [])
step_log l resets = (l, [])

unfoldable pub run_log : Log → List Call → Log × List Push
run_log l [] = (l, [])
run_log l (c ∷ cs) =
    let (l', out) = step_log l c in let (l'', rest) = run_log l' cs in (l'', out ++ rest)

-- Every call keeps the representation invariant.
pub step-IsValid : (r : Ring) (c : Call) → IsValid r → IsValid (step r c).0
unfolding step push
step-IsValid r (pushes p elapsed) v = record_overhead-IsValid _ (push_rec-IsValid p v)
step-IsValid r (drains now) v = take_recs_into-IsValid now v
step-IsValid r (measures ns) v = record_overhead-IsValid ns v
step-IsValid r resets v = reset_overhead-IsValid v

-- After any history of calls the ring is valid: no slot is written or read out of range.
pub run-IsValid : (r : Ring) (cs : List Call) → IsValid r → IsValid (run r cs).0
unfolding run
run-IsValid r [] v = v
run-IsValid r (c ∷ cs) v = run-IsValid (step r c).0 cs (step-IsValid r c v)

log-record_overhead : (r : Ring) (ns : ℕ) → log (record_overhead r ns) ≡ log r
unfolding record_overhead
log-record_overhead r ns = refl

step_refines :
    (r : Ring) (c : Call)
    → IsValid r
    → let (r', out) = step r c in (log r', map view out) ≡ step_log (log r) c
unfolding step step_log push reset_overhead take_recs_into
step_refines r (pushes p elapsed) v =
    ap (λ l. (l, []))
      (log-record_overhead (push_rec r p) (elapsed % u64_mod) ∙ push_rec_refines p v)
step_refines r (drains now) v = refl
step_refines r (measures ns) v = ap (λ l. (l, [])) (log-record_overhead r ns)
step_refines r resets v = refl

-- Over any history a valid ring hands out what the bounded log hands out, in the same order, and
-- ends in the log's state.
pub run_refines :
    (r : Ring) (cs : List Call)
    → IsValid r
    → let (r', out) = run r cs in (log r', map view out) ≡ run_log (log r) cs
unfolding run run_log
run_refines r [] v = refl
run_refines r (c ∷ cs) v =
    rw (← step_refines r c v, ← run_refines (step r c).0 cs (step-IsValid r c v), map-append)
