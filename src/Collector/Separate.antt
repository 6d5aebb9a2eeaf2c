-- ===== src/Collector/Separate.antt =====
-- That the files of one cycle do not disturb each other (crates/exporter/src/collector.rs).
-- keys: bytes_key
use pg_plansight.Prelude.{
  ◌≡◌, refl, sym, ap, subst, ◌∙◌, inl, inr, Bool, true, false, ◌||◌, Option, none, some, List, [],
  ◌∷◌, arith, if◌then◌else◌, Bool-cases, if_true, if_false, bytes_eq, bytes_eq_sound, bytes_eq_refl,
  beq_sym_false, lookup, lookup-put, lookup-put_self, bytes_key,
}
use mathlib.Core.Bool.{true≢false}
use pg_plansight.Grouping.Plans.{Bytes}
use pg_plansight.Scan.Verdict.{Simd}
use pg_plansight.Collector.{FileState, FileRuntime, LogParsing, FileView, Intake}
use pg_plansight.Collector.Cycle.{
  LogCollector, runtime_of, keep_state, contains, retain, Totals, count_result, Visitor, visit_of,
  after_visit, visit_paths, no_totals, log_visitor, collect_metrics,
}

abbrev pub AllDistinct : List Bytes → Type 0
AllDistinct [] = Unit
AllDistinct (path ∷ paths) = (contains path paths ≡ false) × AllDistinct paths

abbrev pub or_kept : Option FileState → Option FileState → Option FileState
or_kept none old = old
or_kept (some st) old = some st

||_false : (a b : Bool) → (a || b) ≡ false → (a ≡ false) × (b ≡ false)
||_false a b h = ground arith

lookup-keep_state :
    (p path : Bytes) (o : Option FileState) (files : List (Bytes × FileState))
    → lookup p (keep_state path o files)
      ≡ (if bytes_eq path p then or_kept o (lookup path files) else lookup p files)
lookup-keep_state p path none files = elim (Bool-cases (bytes_eq path p)) [
  | inl e ↦ ap (λ q. lookup q files) (sym (bytes_eq_sound path p e)) ∙ sym (if_true _ _ e)
  | inr e ↦ sym (if_false _ _ e)
]
lookup-keep_state p path (some st) files = lookup-put path p st files

lookup-retain :
    (p : Bytes) (live : List Bytes) (m : List (Bytes × FileRuntime))
    → lookup p (retain live m) ≡ (if contains p live then lookup p m else none)
unfolding lookup retain
lookup-retain p live [] = elim (Bool-cases (contains p live)) [
  | inl e ↦ sym (if_true _ _ e)
  | inr e ↦ sym (if_false _ _ e)
]
lookup-retain p live (entry ∷ m) =
    let ih = lookup-retain p live m in
    elim (Bool-cases (bytes_eq entry.0 p)) [
      | inl same ↦
          let eq = bytes_eq_sound entry.0 p same in
          rw (same, ap (λ q. contains q live) eq)
            (elim (Bool-cases (contains p live)) [
              | inl e ↦ rw (e, same) refl
              | inr e ↦ rw e (ih ∙ if_false _ _ e)
            ])
      | inr other ↦ elim (Bool-cases (contains entry.0 live)) [
        | inl e ↦ rw (other, e) (rw other ih)
        | inr e ↦ rw (other, e) ih
      ]
    ]

module _ (s : Simd) (intake : Intake) (config : LogParsing) (look : Bytes → FileView)
    (visit : Visitor s intake config look) where
  open intake use {Grouper, Queries}

  -- A path that is not visited keeps its states.
  untouched :
      (p : Bytes) (paths : List Bytes) (c : LogCollector Grouper) (t : Totals)
      → contains p paths ≡ false
      → let after = (visit_paths s intake config look visit paths c t).0 in
        (lookup p after.processed_files ≡ lookup p c.processed_files)
        × (lookup p after.file_runtime ≡ lookup p c.file_runtime)
  unfolding visit_paths
  untouched p [] c t out = (refl, refl)
  untouched p (path ∷ paths) c t out =
      let v = visit_of s intake config look visit c path in
      let (here, rest) = ||_false (bytes_eq p path) (contains p paths) out in
      let other = beq_sym_false p path here in
      let (files, runtime) =
        untouched p paths (after_visit s intake config look c path v) (count_result t v.result)
          rest in
      (
        files ∙ (lookup-keep_state p path v.stored c.processed_files ∙ if_false _ _ other),
        runtime ∙ (lookup-put path p v.runtime c.file_runtime ∙ if_false _ _ other),
      )

  -- What a visit of a path with these states and some grouper leaves.
  pub record Visited (p : Bytes) (old : Option FileState) (r : FileRuntime)
      (after : LogCollector Grouper) : Type 0 where
    pub grouper : Grouper
    pub file_state :
        lookup p after.processed_files ≡ or_kept (visit (look p) old r grouper).stored old
    pub runtime : lookup p after.file_runtime ≡ some (visit (look p) old r grouper).runtime

  same_states :
      (p : Bytes) {old new : Option FileState} {r q : FileRuntime} {after : LogCollector Grouper}
      → old ≡ new
      → r ≡ q
      → Visited p old r after
      → Visited p new q after
  same_states p {old = old} {q = q} {after = after} e f v =
      subst (λ o. Visited p o q after) e (subst (λ x. Visited p old x after) f v)

  visit_of-Visited :
      (path : Bytes) (paths : List Bytes) (c : LogCollector Grouper) (t : Totals)
      → contains path paths ≡ false
      → let v = visit_of s intake config look visit c path in
        Visited path
          (lookup path c.processed_files)
          (runtime_of (lookup path c.file_runtime))
          (visit_paths s intake config look visit paths
            (after_visit s intake config look c path v)
            t).0
  visit_of-Visited path paths c t apart =
      let v = visit_of s intake config look visit c path in
      let (files, runtime) =
        untouched path paths (after_visit s intake config look c path v) t apart in
      record {
        grouper = c.grouper;
        file_state =
            files
            ∙ (lookup-keep_state path path v.stored c.processed_files
                ∙ if_true _ _ (bytes_eq_refl path));
        runtime = runtime ∙ lookup-put_self path v.runtime c.file_runtime;
      }

  visit_paths-Visited :
      (p : Bytes) (paths : List Bytes) (c : LogCollector Grouper) (t : Totals)
      → AllDistinct paths
      → contains p paths ≡ true
      → Visited p
          (lookup p c.processed_files)
          (runtime_of (lookup p c.file_runtime))
          (visit_paths s intake config look visit paths c t).0
  unfolding visit_paths
  visit_paths-Visited p [] c t distinct in_list = absurd (true≢false (sym in_list))
  visit_paths-Visited p (path ∷ paths) c t (apart, distinct) in_list =
      let v = visit_of s intake config look visit c path in
      let c1 = after_visit s intake config look c path v in
      elim (Bool-cases (bytes_eq p path)) [
        | inl here ↦
            subst
              (λ q.
                Visited q (lookup q c.processed_files) (runtime_of (lookup q c.file_runtime))
                  (visit_paths s intake config look visit paths c1 (count_result t v.result)).0)
              (sym (bytes_eq_sound p path here))
              (visit_of-Visited path paths c (count_result t v.result) apart)
        | inr other ↦
            let away = beq_sym_false p path other in
            let rest : contains p paths ≡ true = ground arith in
            same_states p (lookup-keep_state p path v.stored c.processed_files ∙ if_false _ _ away)
              (ap runtime_of (lookup-put path p v.runtime c.file_runtime ∙ if_false _ _ away))
              (visit_paths-Visited p paths c1 (count_result t v.result) distinct rest)
      ]

module _ (s : Simd) (intake : Intake) (config : LogParsing) (look : Bytes → FileView) where
  open intake use {Grouper, Queries}

  -- One cycle visits each of the distinct files once, by its own checkpoint and runtime state as
  -- they were before the cycle, whatever happened to the others, errors included: only the grouper
  -- is handed from one to the next. What is kept of a file that is not among them is its
  -- checkpoint, and nothing of its runtime state.
  pub collect_metrics-separate :
      (p : Bytes) (log_paths : List Bytes) (c : LogCollector Grouper)
      → AllDistinct log_paths
      → let after = (collect_metrics s intake config look log_paths c).0 in
        (contains p log_paths ≡ true
          → Visited s intake config look
              (log_visitor s intake config look)
              p
              (lookup p c.processed_files)
              (runtime_of (lookup p c.file_runtime))
              after)
        × (contains p log_paths ≡ false
            → (lookup p after.processed_files ≡ lookup p c.processed_files)
              × (lookup p after.file_runtime ≡ none))
  unfolding collect_metrics
  collect_metrics-separate p log_paths c distinct =
      let visit = log_visitor s intake config look in
      let start : LogCollector Grouper = record c {
        file_runtime = retain log_paths c.file_runtime;
      } in
      let retained = lookup-retain p log_paths c.file_runtime in
      let totals = no_totals s intake config look in
      (
        λ within.
            same_states s intake config look visit p refl
              (ap runtime_of (retained ∙ if_true _ _ within))
              (visit_paths-Visited s intake config look visit p log_paths start totals distinct
                within),
        λ out.
            let (files, runtime) =
              untouched s intake config look visit p log_paths start totals out in
            (files, runtime ∙ (retained ∙ if_false _ _ out)),
      )
