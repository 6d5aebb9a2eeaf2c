-- ===== src/Log/Both.antt =====
-- The same bytes read by two readings (crates/core/src/log_parser.rs), none of which meets the
-- limit of an entry.
use pg_plansight.Prelude.{
  ℕ, zero, suc, ◌+◌, ◌≤◌, ◌<◌, ◌≡◌, refl, sym, ap, subst, ◌∙◌, inl, inr, ◌&&◌, not, Option, none,
  some, List, [], ◌∷◌, ◌++◌, arith, ◌==◌, le→ltb, Bool-cases, length,
}
use pg_plansight.Grouping.Plans.{QueryPlan}
use pg_plansight.Log.{Text, trim, trim_end}
use pg_plansight.Log.Builders.{Formats, newline}
use pg_plansight.Log.Reader.{
  vec_sink, ends_line, read_until, cut_line, read_line, is_no_entry, bound_entry, start_entry,
  log_line, continuation_line, any_line, take_line, read_loop,
}
use pg_plansight.Log.Fuel.{length-read_line, run, run_step}
use pg_plansight.Log.Ahead.{Read, after_line, Ahead, any_of, any_line-Ahead}

cut_line_first : (n : ℕ) (line rest : List ℕ) → (cut_line n (line, rest)).0 ≡ line
cut_line_first n line rest = elim (Bool-cases (length line == n && not (ends_line line))) [
  | inl e ↦ rw e refl
  | inr e ↦ rw e refl
]

read_until_some : (n b : ℕ) (bytes : List ℕ) → 0 < length (read_until (suc n) (b ∷ bytes)).0
unfolding read_until
read_until_some n b bytes = elim (Bool-cases (b == newline)) [
  | inl e ↦ rw e (omega arith)
  | inr e ↦ rw e (omega arith)
]

pub read_line_some :
    (n : ℕ) (bytes : List ℕ) → 0 < n → 0 < length bytes → 0 < length (read_line n bytes).0
unfolding read_line
read_line_some zero bytes room some_left = absurd (omega arith)
read_line_some (suc n) [] room some_left = absurd (omega arith)
read_line_some (suc n) (b ∷ bytes) room some_left =
    let (line, rest) = read_until (suc n) (b ∷ bytes) in
    subst (λ l. 0 < length l) (sym (cut_line_first (suc n) line rest)) (read_until_some n b bytes)

read_line_nil : (n : ℕ) → length (read_line n []).0 ≡ 0
unfolding read_line read_until
read_line_nil zero = refl
read_line_nil (suc n) = ap length (cut_line_first (suc n) [] [])

module _ (formats : Formats) (decode : List ℕ → Text) (max_line_bytes max_entry_bytes : ℕ)
    (room : 0 < max_line_bytes) where
  open formats use {split_log_line, parse_duration, parse_timestamp, database}

  abbrev pub Reads : Type 0
  Reads = Read formats decode max_line_bytes max_entry_bytes

  abbrev pub bounded : Reads → ℕ → Reads
  bounded = bound_entry formats decode max_line_bytes max_entry_bytes vec_sink

  -- An entry within the limit is not touched.
  pub record Kept (r : Reads) (n : ℕ) (b : Reads) : Type 0 where
    pub state : b.parsing_state ≡ r.parsing_state
    pub sink : b.sink ≡ r.sink
    pub name : b.current_database ≡ r.current_database
    pub bytes : b.entry_bytes ≤ r.entry_bytes + n

  pub bound_entry-Kept :
      (r : Reads) (n : ℕ) → r.entry_bytes + n ≤ max_entry_bytes → Kept r n (bounded r n)
  unfolding bound_entry
  bound_entry-Kept r n fits = elim (Bool-cases (is_no_entry r.parsing_state)) [
    | inl e ↦ rw e record { state = refl; sink = refl; name = refl; bytes = omega arith }
    | inr e ↦
        rw (e, le→ltb max_entry_bytes (r.entry_bytes + n) fits)
          record { state = refl; sink = refl; name = refl; bytes = omega arith }
  ]

  bound_entry-Ahead :
      (plans : List QueryPlan) (r q : Reads) (n : ℕ)
      → r.entry_bytes + n ≤ max_entry_bytes
      → q.entry_bytes + n ≤ max_entry_bytes
      → Ahead formats decode max_line_bytes max_entry_bytes plans r q
      → Ahead formats decode max_line_bytes max_entry_bytes plans (bounded r n) (bounded q n)
  bound_entry-Ahead plans r q n fits also ahead =
      let a = bound_entry-Kept r n fits in
      let b = bound_entry-Kept q n also in
      record {
        state = a.state ∙ (ahead.state ∙ sym b.state);
        sink = a.sink ∙ (ahead.sink ∙ ap (◌++◌ plans) (sym b.sink));
        name = elim ahead.name [
          | inl idle ↦ inl (b.state ∙ idle)
          | inr same ↦ inr (a.name ∙ (same ∙ sym b.name))
        ];
      }

  start_entry_bytes :
      (r : Reads) (message : Text) (duration : ℕ) (o : Option ℕ)
      → (start_entry formats decode max_line_bytes max_entry_bytes vec_sink r message duration
          o).entry_bytes
        ≡ r.entry_bytes
  start_entry_bytes r message duration none = refl
  start_entry_bytes r message duration (some timestamp) = refl

  log_line_bytes :
      (r : Reads) (timestamp message : Text) (o : Option ℕ)
      → (log_line formats decode max_line_bytes max_entry_bytes vec_sink r timestamp message
          o).entry_bytes
        ≡ r.entry_bytes
  log_line_bytes r timestamp message none = refl
  log_line_bytes r timestamp message (some duration) =
      start_entry_bytes r message duration (parse_timestamp timestamp)

  any_line_bytes :
      (r : Reads) (line : Text) (o : Option (Text × Text))
      → (any_of formats decode max_line_bytes max_entry_bytes r line o).entry_bytes ≡ r.entry_bytes
  unfolding any_line continuation_line
  any_line_bytes r line none = elim (Bool-cases (length (trim line) == 0)) [
    | inl e ↦ rw e refl
    | inr e ↦ rw e refl
  ]
  any_line_bytes r line (some (timestamp, message)) =
      log_line_bytes r timestamp message (parse_duration message)

  abbrev pub after : Reads → List ℕ → Reads
  after = after_line formats decode max_line_bytes max_entry_bytes

  pub after_bytes :
      (r : Reads) (line : List ℕ)
      → r.entry_bytes + length line ≤ max_entry_bytes
      → (after r line).entry_bytes ≤ r.entry_bytes + length line
  unfolding take_line
  after_bytes r line fits =
      let same =
        any_line_bytes (bounded r (length line)) (trim_end (decode line))
          (split_log_line (trim_end (decode line))) in
      omega (arith, same, (bound_entry-Kept r (length line) fits).bytes)

  after-Ahead :
      (plans : List QueryPlan) (r q : Reads) (line : List ℕ)
      → r.entry_bytes + length line ≤ max_entry_bytes
      → q.entry_bytes + length line ≤ max_entry_bytes
      → Ahead formats decode max_line_bytes max_entry_bytes plans r q
      → Ahead formats decode max_line_bytes max_entry_bytes plans (after r line) (after q line)
  unfolding take_line
  after-Ahead plans r q line fits also ahead =
      any_line-Ahead formats decode max_line_bytes max_entry_bytes plans (bounded r (length line))
        (bounded q (length line)) (trim_end (decode line)) (split_log_line (trim_end (decode line)))
        (bound_entry-Ahead plans r q (length line) fits also ahead)

  abbrev pub runs : List ℕ → Reads → Option Reads
  runs = run formats decode max_line_bytes max_entry_bytes vec_sink

  pub runs_nil : (r : Reads) → runs [] r ≡ some r
  unfolding read_loop
  runs_nil r = rw (read_line_nil max_line_bytes) refl

  pub runs_step :
      (bytes : List ℕ) (r : Reads)
      → 0 < length bytes
      → runs bytes r
        ≡ runs (read_line max_line_bytes bytes).1 (after r (read_line max_line_bytes bytes).0)
  runs_step bytes r some_left =
      run_step formats decode max_line_bytes max_entry_bytes vec_sink bytes r refl
        (λ e. absurd (omega (arith, e, read_line_some max_line_bytes bytes room some_left)))

  -- Both readings of the same bytes.
  pub record Both (plans : List QueryPlan) (a b : Option Reads) : Type 0 where
    pub r : Reads
    pub q : Reads
    pub first : a ≡ some r
    pub second : b ≡ some q
    pub ahead : Ahead formats decode max_line_bytes max_entry_bytes plans r q

  pub runs-Both :
      (n : ℕ) (plans : List QueryPlan) (bytes : List ℕ) (r q : Reads)
      → length bytes < n
      → r.entry_bytes + length bytes ≤ max_entry_bytes
      → q.entry_bytes + length bytes ≤ max_entry_bytes
      → Ahead formats decode max_line_bytes max_entry_bytes plans r q
      → Both plans (runs bytes r) (runs bytes q)
  runs-Both zero plans bytes r q enough fits also ahead = absurd (omega arith)
  runs-Both (suc n) plans [] r q enough fits also ahead = record {
    r = r;
    q = q;
    first = runs_nil r;
    second = runs_nil q;
    ahead = ahead;
  }
  runs-Both (suc n) plans (b ∷ bytes) r q enough fits also ahead =
      let (line, rest) = read_line max_line_bytes (b ∷ bytes) in
      let less = length-read_line max_line_bytes (b ∷ bytes) in
      let longer = read_line_some max_line_bytes (b ∷ bytes) room (omega arith) in
      let ra = after_bytes r line (omega (arith, less, fits)) in
      let qa = after_bytes q line (omega (arith, less, also)) in
      let both =
        runs-Both n plans rest (after r line) (after q line) (omega (arith, less, longer, enough))
          (omega (arith, less, ra, fits)) (omega (arith, less, qa, also))
          (after-Ahead plans r q line (omega (arith, less, fits)) (omega (arith, less, also))
            ahead) in
      record {
        r = both.r;
        q = both.q;
        first = runs_step (b ∷ bytes) r (omega arith) ∙ both.first;
        second = runs_step (b ∷ bytes) q (omega arith) ∙ both.second;
        ahead = both.ahead;
      }
