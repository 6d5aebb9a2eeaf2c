-- ===== src/Collector/Progress.antt =====
-- A file that no longer changes, under repeated visits (crates/exporter/src/collector.rs).
use pg_plansight.Prelude.{
  ℕ, ◌+◌, ◌-◌, ◌*◌, ◌^◌, ◌≤◌, ◌<◌, min, ◌≡◌, refl, sym, ◌∙◌, ◌⊎◌, inl, inr, true, false, Option,
  some, arith, ltb, leb, ◌==◌, if◌then◌else◌, ltb→lt, ltb→le, leb→le, leb→lt, ==→≢, Bool-cases,
  if_true,
}
use mathlib.Core.Bool.{true≢false}
use pg_plansight.Collector.{FileState, FileRuntime, u64_max, LogParsing, Metadata}
use pg_plansight.Collector.File.{
  observed_before, observe, is_quiescent, effective_read_budget, window_end,
}
use pg_plansight.Collector.Moves.{position}

-- How often the file was seen as it is now, up to 2.
unfoldable pub age : FileRuntime → Metadata → ℕ
age r m = if observed_before r.last_observed m then min (r.unchanged_cycles + 1) 2 else 0

-- A bound on the visits left.
abbrev pub left : Metadata → Option FileState → FileRuntime → ℕ
left m stored r =
    63 * (2 - age r m)
    + 63 * (m.len - position stored)
    + 3 * (20 - min r.budget_stalls 20)
    + (2 - r.parse_failures)

observed_now : (m : Metadata) → observed_before (some (m.modified, m.len)) m ≡ true
observed_now m = ground arith

pub record Observed (m : Metadata) (r0 r : FileRuntime) : Type 0 where
  pub stalls : r.budget_stalls ≡ r0.budget_stalls
  pub failures : r.parse_failures ≡ r0.parse_failures
  pub older : age r0 m ≤ age r m
  pub younger : is_quiescent r ≡ false → age r0 m < age r m

age-observe :
    (r : FileRuntime) (m : Metadata)
    → (age (observe r m) m ≡ min (age r m + 1) 2)
      × (2 ≤ age r m → is_quiescent (observe r m) ≡ true)
unfolding age observe
age-observe r m = elim (Bool-cases (observed_before r.last_observed m)) [
  | inl e ↦ rw e (rw e (omega arith), λ h. ground arith)
  | inr e ↦ rw e (ground arith, λ h. absurd (omega arith))
]

pub age-le : (r : FileRuntime) (m : Metadata) → age r m ≤ 2
unfolding age
age-le r m = ground arith

pub observe-fields :
    (r : FileRuntime) (m : Metadata)
    → ((observe r m).budget_stalls ≡ r.budget_stalls)
      × ((observe r m).parse_failures ≡ r.parse_failures)
unfolding observe
observe-fields r m = elim (Bool-cases (observed_before r.last_observed m)) [
  | inl e ↦ rw e (refl, refl)
  | inr e ↦ rw e (refl, refl)
]

pub observe-Observed : (r : FileRuntime) (m : Metadata) → Observed m r (observe r m)
observe-Observed r m =
    let (grown, quiet) = age-observe r m in
    let (stalls, failures) = observe-fields r m in
    let top = age-le r m in
    record {
      stalls = stalls;
      failures = failures;
      older = omega (arith, grown, top);
      younger = λ e. elim (Bool-cases (leb 2 (age r m))) [
        | inl two ↦ absurd (true≢false (sym (quiet (leb→le 2 (age r m) two)) ∙ e))
        | inr less ↦ omega (arith, grown, leb→lt 2 (age r m) less)
      ];
    }

-- A budget that reaches the end does not clamp.
window_end-full :
    (budget p size : ℕ)
    → size ≤ u64_max
    → (budget ≡ 0) ⊎ (size ≤ budget)
    → window_end false budget p size ≡ size
unfolding window_end
window_end-full budget p size fits enough = elim (Bool-cases (budget == 0)) [
  | inl e ↦ rw e refl
  | inr e ↦ rw e (elim enough [ inl z ↦ absurd (==→≢ budget 0 e z) | inr le ↦ omega arith ])
]

-- The budget after 20 stalls.
widest :
    (config : LogParsing) (r : FileRuntime) (size : ℕ)
    → size ≤ u64_max
    → 20 ≤ r.budget_stalls
    → (config.max_read_bytes_per_cycle ≡ 0) ⊎ (size ≤ config.max_read_bytes_per_cycle * 2 ^ 20)
    → (effective_read_budget config r ≡ 0) ⊎ (size ≤ effective_read_budget config r)
unfolding effective_read_budget
widest config r size fits long enough = elim (Bool-cases (config.max_read_bytes_per_cycle == 0)) [
  | inl e ↦ inl (if_true _ _ e)
  | inr e ↦ elim enough [
    | inl z ↦ absurd (==→≢ config.max_read_bytes_per_cycle 0 e z)
    | inr le ↦
        inr (let top : min r.budget_stalls 20 ≡ 20 = omega arith in rw (e, top) (omega arith))
  ]
]

pub window_end-clamped :
    (config : LogParsing) (r : FileRuntime) (p size : ℕ)
    → size ≤ u64_max
    → (config.max_read_bytes_per_cycle ≡ 0) ⊎ (size ≤ config.max_read_bytes_per_cycle * 2 ^ 20)
    → window_end false (effective_read_budget config r) p size < size
    → r.budget_stalls < 20
window_end-clamped config r p size fits enough short = elim (Bool-cases (ltb r.budget_stalls 20)) [
  | inl e ↦ ltb→lt r.budget_stalls 20 e
  | inr e ↦
      let full =
        window_end-full (effective_read_budget config r) p size fits
          (widest config r size fits (ltb→le r.budget_stalls 20 e) enough) in
      absurd (omega (arith, full, short))
]
