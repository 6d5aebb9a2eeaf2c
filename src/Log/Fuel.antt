-- ===== src/Log/Fuel.antt =====
-- That the read loop of crates/core/src/log_parser.rs ends, and how it cuts lines.
use pg_plansight.Prelude.{
  ℕ, zero, suc, ◌+◌, ◌≤◌, ◌<◌, ◌≡◌, refl, sym, ap, ◌∙◌, ◌≢◌, inl, inr, false, ◌&&◌, not, Option,
  none, some, List, [], ◌∷◌, arith, ◌==◌, ==→≢, ≢→==, Bool-cases, length,
}
use mathlib.Core.Option
use mathlib.Core.Option.{none-ne-some}
use pg_plansight.Log.{Text}
use pg_plansight.Log.Builders.{Formats, newline}
use pg_plansight.Log.Reader.{
  PlanSink, read_until, skip_line, ends_line, read_line, Reading, take_line, read_loop,
  start_reading, last_plan, parse_into_sink,
}

length-read_until :
    (n : ℕ) (bytes : List ℕ)
    → length (read_until n bytes).0 + length (read_until n bytes).1 ≡ length bytes
unfolding read_until
length-read_until zero bytes = omega arith
length-read_until (suc n) [] = refl
length-read_until (suc n) (b ∷ bytes) = elim (Bool-cases (b == newline)) [
  | inl e ↦ rw e (omega arith)
  | inr e ↦ rw e (omega (arith, length-read_until n bytes))
]

length-skip_line : (bytes : List ℕ) → length (skip_line bytes) ≤ length bytes
unfolding skip_line
length-skip_line [] = omega arith
length-skip_line (b ∷ bytes) = elim (Bool-cases (b == newline)) [
  | inl e ↦ rw e (omega arith)
  | inr e ↦ rw e (omega (arith, length-skip_line bytes))
]

-- A line and the rest are no longer than what was there.
pub length-read_line :
    (n : ℕ) (bytes : List ℕ)
    → length (read_line n bytes).0 + length (read_line n bytes).1 ≤ length bytes
unfolding read_line
length-read_line n bytes =
    let (line, rest) = read_until n bytes in
    let all = length-read_until n bytes in
    elim (Bool-cases (length line == n && not (ends_line line))) [
      | inl e ↦ rw e (omega (arith, all, length-skip_line rest))
      | inr e ↦ rw e (omega (arith, all))
    ]

map-none {ℓ κ} :
    {A : Type ℓ} {B : Type κ} (f : A → B) (o : Option A) → Option.map f o ≡ none → o ≡ none
map-none f none e = refl
map-none f (some a) e = absurd (none-ne-some _ (sym e))

module _ (formats : Formats) (decode : List ℕ → Text) (max_line_bytes max_entry_bytes : ℕ)
    (plan_sink : PlanSink) where
  -- The module's parameters, for the loop.
  abbrev pub loop :
      ℕ
      → List ℕ
      → Reading formats decode max_line_bytes max_entry_bytes plan_sink
      → Option (Reading formats decode max_line_bytes max_entry_bytes plan_sink)
  loop = read_loop formats decode max_line_bytes max_entry_bytes plan_sink

  pub loop_more :
      (n m : ℕ) (bytes : List ℕ)
      (r : Reading formats decode max_line_bytes max_entry_bytes plan_sink)
      → length bytes < n
      → length bytes < m
      → (loop n bytes r ≡ loop m bytes r) × (loop n bytes r ≢ none)
  unfolding read_loop
  loop_more zero m bytes r h k = absurd (omega arith)
  loop_more (suc n) zero bytes r h k = absurd (omega arith)
  loop_more (suc n) (suc m) bytes r h k =
      let (line, rest) = read_line max_line_bytes bytes in
      let r1 = take_line formats decode max_line_bytes max_entry_bytes plan_sink r line in
      elim (Bool-cases (plan_sink.full r.sink)) [
        | inl e ↦ rw e (refl, λ f. none-ne-some _ (sym f))
        | inr e ↦ elim (Bool-cases (length line == 0)) [
          | inl f ↦ rw (e, f) (refl, λ g. none-ne-some _ (sym g))
          | inr f ↦
              let less = length-read_line max_line_bytes bytes in
              let (same, some_left) =
                loop_more n m rest r1 (omega (arith, less, ==→≢ (length line) 0 f))
                  (omega (arith, less, ==→≢ (length line) 0 f)) in
              rw (e, f) (same, some_left)
        ]
      ]

  -- The loop with fuel enough.
  abbrev pub run :
      List ℕ
      → Reading formats decode max_line_bytes max_entry_bytes plan_sink
      → Option (Reading formats decode max_line_bytes max_entry_bytes plan_sink)
  run bytes r = loop (suc (length bytes)) bytes r

  pub run_step :
      (bytes : List ℕ) (r : Reading formats decode max_line_bytes max_entry_bytes plan_sink)
      → plan_sink.full r.sink ≡ false
      → length (read_line max_line_bytes bytes).0 ≢ 0
      → run bytes r
        ≡ run (read_line max_line_bytes bytes).1 (
            take_line formats decode max_line_bytes max_entry_bytes plan_sink r
              (read_line max_line_bytes bytes).0)
  unfolding read_loop
  run_step bytes r room line =
      let (first, rest) = read_line max_line_bytes bytes in
      let less = length-read_line max_line_bytes bytes in
      rw (room, ≢→== (length first) 0 line)
        ((loop_more (length bytes) (suc (length rest)) rest
          (take_line formats decode max_line_bytes max_entry_bytes plan_sink r first)
          (omega (arith, less, line)) (omega arith)).0)

  -- The read loop ends on every input and with every sink: as many rounds as there are bytes, and
  -- one more, are enough for it, and more rounds give the same.
  pub parse_into_sink_ends :
      (bytes : List ℕ) (sink : plan_sink.Sink) (n : ℕ)
      → length bytes < n
      → (parse_into_sink formats decode max_line_bytes max_entry_bytes plan_sink bytes sink ≢ none)
        × (Option.map (last_plan formats decode max_line_bytes max_entry_bytes plan_sink) (
              read_loop formats decode max_line_bytes max_entry_bytes plan_sink n bytes
                (start_reading formats decode max_line_bytes max_entry_bytes plan_sink sink))
            ≡ parse_into_sink formats decode max_line_bytes max_entry_bytes plan_sink bytes sink)
  unfolding parse_into_sink
  parse_into_sink_ends bytes sink n enough =
      let start = start_reading formats decode max_line_bytes max_entry_bytes plan_sink sink in
      let (same, ends) = loop_more n (suc (length bytes)) bytes start enough (omega arith) in
      (
        λ e. ends (same ∙ map-none _ (loop (suc (length bytes)) bytes start) e),
        ap (Option.map (last_plan formats decode max_line_bytes max_entry_bytes plan_sink)) same,
      )
