-- ===== src/Log/Split.antt =====
-- A log cut at a log line, as the exporter cuts it: the plans of both parts are those of the whole
-- (crates/core/src/log_parser.rs).
use pg_plansight.Prelude.{
  ℕ, zero, suc, ◌+◌, ◌≤◌, ◌<◌, ◌≡◌, refl, sym, ap, ap₂, subst, ◌∙◌, inl, inr, true, Option, none,
  some, List, [], ◌∷◌, ◌++◌, append-nil, arith, length,
}
use mathlib.Core.Option
use pg_plansight.Grouping.Plans.{QueryPlan}
use pg_plansight.Log.{Text, trim_end}
use pg_plansight.Log.Builders.{Formats}
use pg_plansight.Log.State.{no_entry, finalize_plan, reset_with_builder, finish}
use pg_plansight.Log.Reader.{
  vec_sink, read_line, start_entry, log_line, any_line, take_line, start_reading, last_plan,
  parse_into_sink,
}
use pg_plansight.Log.Fuel.{length-read_line}
use pg_plansight.Log.Lines.{is_closed, read_line-append}
use pg_plansight.Log.Ahead.{handed, Ahead, any_of, finalize_no_entry, end_entry-Ahead}
use pg_plansight.Log.Both.{
  read_line_some, Reads, bounded, Kept, bound_entry-Kept, after, after_bytes, runs, runs_nil,
  runs_step, runs-Both,
}

module _ (formats : Formats) (decode : List ℕ → Text) (max_line_bytes max_entry_bytes : ℕ)
    (room : 0 < max_line_bytes) where
  open formats use {split_log_line, parse_duration, parse_timestamp, database}

  abbrev In : Type 0
  In = Reads formats decode max_line_bytes max_entry_bytes room

  abbrev on : List ℕ → In → Option In
  on = runs formats decode max_line_bytes max_entry_bytes room

  abbrev next : In → List ℕ → In
  next = after formats decode max_line_bytes max_entry_bytes room

  abbrev plans_of : In → List QueryPlan
  plans_of = last_plan formats decode max_line_bytes max_entry_bytes vec_sink

  -- A first part that ends a line, and what is read after it.
  record First (xs ys : List ℕ) (r : In) : Type 0 where
    pub middle : In
    pub front : on xs r ≡ some middle
    pub back : on (xs ++ ys) r ≡ on ys middle
    pub bytes : middle.entry_bytes + length ys ≤ max_entry_bytes

  on-First :
      (n : ℕ) (xs ys : List ℕ) (r : In)
      → length xs < n
      → is_closed xs ≡ true
      → r.entry_bytes + (length xs + length ys) ≤ max_entry_bytes
      → First xs ys r
  on-First zero xs ys r enough closed fits = absurd (omega arith)
  on-First (suc n) [] ys r enough closed fits = record {
    middle = r;
    front = runs_nil formats decode max_line_bytes max_entry_bytes room r;
    back = refl;
    bytes = omega arith;
  }
  on-First (suc n) (b ∷ xs) ys r enough closed fits =
      let (line, rest) = read_line max_line_bytes (b ∷ xs) in
      let (same, left) = read_line-append max_line_bytes (b ∷ xs) ys closed in
      let less = length-read_line max_line_bytes (b ∷ xs) in
      let longer = read_line_some max_line_bytes (b ∷ xs) room (omega arith) in
      let more =
        after_bytes formats decode max_line_bytes max_entry_bytes room r line
          (omega (arith, less, fits)) in
      let first =
        on-First n rest ys (next r line) (omega (arith, less, longer, enough)) left
          (omega (arith, less, more, fits)) in
      record {
        middle = first.middle;
        front =
            runs_step formats decode max_line_bytes max_entry_bytes room (b ∷ xs) r (omega arith)
            ∙ first.front;
        back =
            runs_step formats decode max_line_bytes max_entry_bytes room ((b ∷ xs) ++ ys) r
              (omega arith)
            ∙ (ap (λ p. on p.1 (next r p.0)) same ∙ first.back);
        bytes = first.bytes;
      }

  end_entry-Reset :
      (r q : In) → q.parsing_state ≡ no_entry → q.sink ≡ [] → plans_of r ≡ plans_of r ++ plans_of q
  unfolding finish
  end_entry-Reset r q idle empty = sym (
      ap (◌++◌ (plans_of r)) (
        ap (λ o. handed formats decode max_line_bytes max_entry_bytes q.sink o q.current_database)
          (finalize_no_entry formats decode max_line_bytes max_entry_bytes q.parsing_state idle)
        ∙ empty)
      ∙ append-nil (plans_of r))

  start_entry-Reset :
      (r q : In) (message : Text) (duration : ℕ) (o : Option ℕ)
      → q.parsing_state ≡ no_entry
      → q.sink ≡ []
      → Ahead formats decode max_line_bytes max_entry_bytes
          (plans_of r)
          (start_entry formats decode max_line_bytes max_entry_bytes vec_sink r message duration o)
          (start_entry formats decode max_line_bytes max_entry_bytes vec_sink q message duration o)
  unfolding finish reset_with_builder
  start_entry-Reset r q message duration none idle empty = record {
    state = refl;
    sink = end_entry-Reset r q idle empty;
    name = inl refl;
  }
  start_entry-Reset r q message duration (some timestamp) idle empty = record {
    state = refl;
    sink = end_entry-Reset r q idle empty;
    name = inr refl;
  }

  log_line-Reset :
      (r q : In) (timestamp message : Text) (o : Option ℕ)
      → q.parsing_state ≡ no_entry
      → q.sink ≡ []
      → Ahead formats decode max_line_bytes max_entry_bytes
          (plans_of r)
          (log_line formats decode max_line_bytes max_entry_bytes vec_sink r timestamp message o)
          (log_line formats decode max_line_bytes max_entry_bytes vec_sink q timestamp message o)
  unfolding finish
  log_line-Reset r q timestamp message none idle empty = record {
    state = refl;
    sink = end_entry-Reset r q idle empty;
    name = inl refl;
  }
  log_line-Reset r q timestamp message (some duration) idle empty =
      start_entry-Reset r q message duration (parse_timestamp timestamp) idle empty

  plans_of-Kept :
      (r b : In) (n : ℕ)
      → Kept formats decode max_line_bytes max_entry_bytes room r n b
      → plans_of b ≡ plans_of r
  unfolding finish
  plans_of-Kept r b n kept =
      ap₂
        (λ sink name.
          handed formats decode max_line_bytes max_entry_bytes sink
            (finalize_plan formats b.parsing_state) name)
        kept.sink kept.name
      ∙ ap
          (λ state.
            handed formats decode max_line_bytes max_entry_bytes r.sink
              (finalize_plan formats state) r.current_database)
          kept.state

  next-Reset :
      (r q : In) (line : List ℕ) (parts : Text × Text)
      → split_log_line (trim_end (decode line)) ≡ some parts
      → q.parsing_state ≡ no_entry
      → q.sink ≡ []
      → r.entry_bytes + length line ≤ max_entry_bytes
      → q.entry_bytes + length line ≤ max_entry_bytes
      → Ahead formats decode max_line_bytes max_entry_bytes (plans_of r) (next r line) (next q line)
  unfolding take_line any_line
  next-Reset r q line (timestamp, message) split idle empty fits also =
      let n = length line in
      let rb = bounded formats decode max_line_bytes max_entry_bytes room r n in
      let qb = bounded formats decode max_line_bytes max_entry_bytes room q n in
      let rk = bound_entry-Kept formats decode max_line_bytes max_entry_bytes room r n fits in
      let qk = bound_entry-Kept formats decode max_line_bytes max_entry_bytes room q n also in
      let text = trim_end (decode line) in
      subst
        (λ plans.
          Ahead formats decode max_line_bytes max_entry_bytes plans (next r line) (next q line))
        (plans_of-Kept r rb n rk)
        (subst
          (λ o.
            Ahead formats decode max_line_bytes max_entry_bytes (plans_of rb)
              (any_of formats decode max_line_bytes max_entry_bytes rb text o)
              (any_of formats decode max_line_bytes max_entry_bytes qb text o))
          (sym split)
          (log_line-Reset rb qb timestamp message (parse_duration message) (qk.state ∙ idle)
            (qk.sink ∙ empty)))

  -- The bytes begin with a log line.
  pub record StartsEntry (bytes : List ℕ) : Type 0 where
    pub some_left : 0 < length bytes
    pub parts : Text × Text
    pub split : split_log_line (trim_end (decode (read_line max_line_bytes bytes).0)) ≡ some parts

  abbrev pub joined : Option (List QueryPlan) → Option (List QueryPlan) → Option (List QueryPlan)
  joined (some a) (some b) = some (a ++ b)
  joined (some a) none = none
  joined none b = none

  abbrev start : In
  start = start_reading formats decode max_line_bytes max_entry_bytes vec_sink []

  abbrev pub parse : List ℕ → Option (List QueryPlan)
  parse bytes = parse_into_sink formats decode max_line_bytes max_entry_bytes vec_sink bytes []

  -- Cutting a log where a line that starts an entry begins loses no plan and makes none: the plans
  -- of the whole are those of the part before it, then those of the part from there on, each read
  -- on its own. The part before it is whole lines, and together they are no longer than the limit
  -- of an entry.
  pub parse_into_sink-append :
      (xs ys : List ℕ)
      → is_closed xs ≡ true
      → StartsEntry ys
      → length xs + length ys ≤ max_entry_bytes
      → parse (xs ++ ys) ≡ joined (parse xs) (parse ys)
  unfolding parse_into_sink
  parse_into_sink-append xs ys closed header fits =
      let (line, rest) = read_line max_line_bytes ys in
      let less = length-read_line max_line_bytes ys in
      let first = on-First (suc (length xs)) xs ys start (omega arith) closed (omega arith) in
      let middle = first.middle in
      let mb =
        after_bytes formats decode max_line_bytes max_entry_bytes room middle line
          (omega (arith, less, first.bytes)) in
      let sb =
        after_bytes formats decode max_line_bytes max_entry_bytes room start line
          (omega (arith, less, fits)) in
      let both =
        runs-Both formats decode max_line_bytes max_entry_bytes room (suc (length rest))
          (plans_of middle) rest (next middle line) (next start line) (omega arith)
          (omega (arith, less, mb, first.bytes)) (omega (arith, less, sb, fits))
          (next-Reset middle start line header.parts header.split refl refl
            (omega (arith, less, first.bytes)) (omega (arith, less, fits))) in
      let whole =
        first.back
        ∙ (runs_step formats decode max_line_bytes max_entry_bytes room ys middle header.some_left
            ∙ both.first) in
      let second =
        runs_step formats decode max_line_bytes max_entry_bytes room ys start header.some_left
        ∙ both.second in
      ap (Option.map plans_of) whole
      ∙ (ap some
            (end_entry-Ahead formats decode max_line_bytes max_entry_bytes (plans_of middle) both.r
              both.q both.ahead).sink
          ∙ sym
              (ap₂ joined (ap (Option.map plans_of) first.front) (ap (Option.map plans_of) second)))
