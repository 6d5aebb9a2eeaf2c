-- ===== src/Tail/Tests.antt =====
-- Cycles of the worker (crates/pg_extension/src/bgworker.rs) on small files, and on one that it
-- cannot pass.
use pg_plansight.Prelude.{
  ℕ, zero, suc, ◌+◌, ◌≤◌, ◌<◌, ◌≡◌, refl, sym, subst, inl, inr, true, false, List, [], ◌∷◌, ◌++◌,
  map, arith, Bool-cases, length, replicate, length-replicate, take_all,
}
use pg_plansight.Scan.Plain.{codes, lists}
use pg_plansight.Collector.Lines.{concat, no_inner, split_one}
use pg_plansight.Tail.{
  max_read_bytes, Headers, no_headers, contains, Cycle, is_entry_header, see_line, see_lines,
  flush_cycles,
}
use pg_plansight.Tail.Reads.{flush_cycles-once}
use pg_plansight.Tail.Stall.{headers_in, Sparse, flush_cycles_stall}

abbrev same : List ℕ → List ℕ
same bytes = bytes

plan_found : contains (codes "ms  plan:") (codes "plan:") ≡ true
unfolding contains
plan_found = refl

plan_missed : contains (codes "ms  plan") (codes "plan:") ≡ false
unfolding contains
plan_missed = refl

abbrev header : List ℕ
header = codes "2025-06-25 00:03:51.601 UTC [1] LOG:  duration: 10.0 ms  plan:\n"

abbrev cycles : List Cycle
cycles =
    record { appended = header; readable = true; soft_error = false; commits = true }
    ∷ record { appended = header; readable = true; soft_error = false; commits = false }
    ∷ record { appended = header; readable = true; soft_error = true; commits = true }
    ∷ record { appended = []; readable = true; soft_error = false; commits = true }
    ∷ []

flush_cycles-once_example :
    let (texts, last, grown) = flush_cycles lists same [] 0 cycles in
    (raws : List (List ℕ)) × (rest : List ℕ) × (texts ≡ map same raws)
    × (grown ≡ concat raws ++ rest)
    × (length (concat raws) ≡ last)
flush_cycles-once_example = flush_cycles-once lists same cycles refl

-- A long line.
zeros-no_inner : (n : ℕ) → no_inner (replicate (suc n) 0) ≡ true
unfolding replicate
zeros-no_inner zero = refl
zeros-no_inner (suc n) = zeros-no_inner n

zeros-ahead : (n : ℕ) → 0 < n → no_inner (replicate n 0) ≡ true
zeros-ahead zero h = absurd (omega arith)
zeros-ahead (suc n) h = zeros-no_inner n

one_more_header :
    (h : Headers) (line : List ℕ) → (see_line lists same h line).header_count ≤ h.header_count + 1
unfolding see_line
one_more_header h line = elim (Bool-cases (is_entry_header lists same line)) [
  | inl header ↦ rw header (omega arith)
  | inr other ↦ rw other (omega arith)
]

one_line : (line : List ℕ) → no_inner line ≡ true → headers_in lists same line < 2
unfolding see_lines
one_line line whole =
    subst (λ lines. (see_lines lists same no_headers lines).header_count < 2)
      (sym (split_one line whole)) (omega (arith, one_more_header no_headers line))

zeros-Sparse : (n : ℕ) → 0 < n → n ≡ max_read_bytes → Sparse lists same (replicate n 0) 0
zeros-Sparse n h e = record {
  enough = omega (arith, length-replicate {A = ℕ} n 0, e);
  few =
      subst (λ bytes. headers_in lists same bytes < 2)
        (sym (
          take_all max_read_bytes (replicate n 0) (omega (arith, length-replicate {A = ℕ} n 0, e))))
        (one_line (replicate n 0) (zeros-ahead n h));
}

flush_cycles_stall_example :
    let (texts, last, grown) = flush_cycles lists same (replicate max_read_bytes 0) 0 cycles in
    (concat texts ≡ []) × (last ≡ 0)
flush_cycles_stall_example =
    flush_cycles_stall lists same (replicate max_read_bytes 0) 0 cycles refl
      (zeros-Sparse max_read_bytes (omega arith) refl)
