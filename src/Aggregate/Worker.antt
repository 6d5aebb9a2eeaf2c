-- ===== src/Aggregate/Worker.antt =====
-- `drain_hook_ring` of crates/pg_extension/src/bgworker.rs: the capture ring and the rows that one
-- round of the worker makes of it.
use pg_plansight.Prelude.{
  ℕ, ◌+◌, ◌-◌, ◌≡◌, refl, sym, ap, ◌∙◌, inl, inr, Bool, true, false, ◌||◌, not, Option, none, some,
  List, [], ◌∷◌, if◌then◌else◌, Bool-cases, length,
}
use mathlib.Core.Option.{some-injective}
use pg_plansight.Grouping.Plans.{Bytes}
use pg_plansight.Grouping.Cache.{Hashing}
use pg_plansight.Grouping.Cache.Sound.{Separate}
use pg_plansight.Grouping.Grouper.Groups.{grow_all}
use pg_plansight.Grouping.Grouper.Window.{Logged}
use pg_plansight.Log.Builders.{Formats}
use pg_plansight.Ring.{Ring}
use pg_plansight.Ring.Inv.{IsValid}
use pg_plansight.Ring.Refine.{pending}
use pg_plansight.Ring.Drain.{Capture, drain, own, drain_lem}
use pg_plansight.Aggregate.Rows.{StatRow, Setting}
use pg_plansight.Aggregate.Captures.{aggregate_captures}
use pg_plansight.Aggregate.Calls.{understood, calls_of, aggregate_captures-calls}
use pg_plansight.Aggregate.Ids.{first_id}
use pg_plansight.Aggregate.Groups.{plans_of, AreRowsOf, no_rows, aggregate_captures-AreRowsOf}

-- The two counts that the worker warns of unless they are 0, and the rows that it has persisted.
pub record Round : Type 0 where
  pub new_drops : ℕ
  pub foreign : ℕ
  pub persisted : List StatRow

-- `catch_others`: a batch that panics has no rows.
abbrev pub or_no_rows : Option (List StatRow) → List StatRow
or_no_rows none = []
or_no_rows (some rows) = rows

module _ (formats : Formats) (setting : Setting) (h : Hashing) where
  -- The rows that a batch has unless it is dropped.
  pub record AreComplete (captures : List Capture) (slo_threshold_ms : ℕ) (rows : List StatRow)
      : Type 0 where
    pub grouped :
        AreRowsOf setting
          (λ key. first_id formats setting key captures)
          slo_threshold_ms
          (grow_all h [] (plans_of formats captures))
          rows
    pub total : calls_of rows ≡ understood formats captures

persisted_if :
    (panicked commits : Bool) (rows : List StatRow)
    → (if commits then (if panicked then [] else rows) else [])
      ≡ (if panicked || not commits then [] else rows)
persisted_if true true rows = refl
persisted_if true false rows = refl
persisted_if false true rows = refl
persisted_if false false rows = refl

if_same {ℓ} : {A : Type ℓ} (x : A) (b : Bool) → x ≡ (if b then x else x)
if_same x true = refl
if_same x false = refl

-- Whether the parser of plans or an analyser panics on some captures is any test of them.
module _ (epoch_to_utc : ℕ → ℕ) (from_utf8_lossy : List ℕ → List ℕ) (formats : Formats)
    (setting : Setting) (h : Hashing) (panics : List Capture → Bool) where
  -- The rows that are left to persist.
  unfoldable pub rows_of_captures : List Capture → ℕ → List StatRow
  rows_of_captures [] slo_threshold_ms = []
  rows_of_captures (c ∷ cs) slo_threshold_ms = or_no_rows (
      if panics (c ∷ cs)
      then none
      else aggregate_captures formats setting h (c ∷ cs) slo_threshold_ms)

  -- The round, what it leaves in `LAST_DROPPED`, and the ring. The transaction commits or fails.
  unfoldable pub drain_hook_ring : Ring → ℕ → ℕ → ℕ → ℕ → Bool → Round × ℕ × Ring
  drain_hook_ring ring last_dropped my_db now slo_threshold_ms commits =
      let ((captures, dropped_total, foreign), ring') =
        drain epoch_to_utc from_utf8_lossy ring my_db now in
      (
        record {
          new_drops = dropped_total - last_dropped;
          foreign = foreign;
          persisted = if commits then rows_of_captures captures slo_threshold_ms else [];
        },
        dropped_total,
        ring',
      )

  module _ (Statement : Bytes → Type 0) (separate : Separate h Statement) where
    aggregate_captures-AreComplete :
        (captures : List Capture) (slo_threshold_ms : ℕ)
        → Logged Statement (plans_of formats captures)
        → (rows : List StatRow) × (aggregate_captures formats setting h captures slo_threshold_ms
            ≡ some rows)
          × AreComplete formats setting h captures slo_threshold_ms rows
    aggregate_captures-AreComplete captures slo_threshold_ms logged =
        let (rows, made, all) =
          aggregate_captures-AreRowsOf formats setting h Statement separate captures
            slo_threshold_ms logged in
        let (counted, again, balanced, total) =
          aggregate_captures-calls formats setting h captures slo_threshold_ms in
        let same = some-injective _ _ (sym again ∙ made) in
        (rows, made, record { grouped = all; total = ap calls_of (sym same) ∙ total })

    rows_of_captures-AreComplete :
        (captures : List Capture) (slo_threshold_ms : ℕ)
        → Logged Statement (plans_of formats captures)
        → (rows : List StatRow) × AreComplete formats setting h captures slo_threshold_ms rows
          × (rows_of_captures captures slo_threshold_ms ≡ (if panics captures then [] else rows))
    unfolding rows_of_captures
    rows_of_captures-AreComplete [] slo_threshold_ms logged =
        ([], record { grouped = no_rows; total = refl }, if_same [] (panics []))
    rows_of_captures-AreComplete (c ∷ cs) slo_threshold_ms logged =
        let (rows, made, complete) =
          aggregate_captures-AreComplete (c ∷ cs) slo_threshold_ms logged in
        (
          rows,
          complete,
          elim (Bool-cases (panics (c ∷ cs))) [
            | inl panicked ↦ rw panicked refl
            | inr fine ↦ rw (fine, made) refl
          ],
        )

    -- A round of the worker on a valid ring. Of the pending captures of its database, plans are made
    -- of those that can be parsed, and these fall into groups one after the other as the grouper
    -- forms them: the rows are one for each group, with the statement, the plan, the database and the
    -- count of the group's executions, its breaches, the first id among its query's captures, and
    -- counts that agree with each other. So no capture is lost and none counted twice: the calls of
    -- the rows are together the captures that a plan can be made of. All rows are persisted, or none
    -- when the batch panics or the transaction fails. Every pending record that is not of the
    -- database is reported as foreign, the drops reported are those since the last round, and the
    -- ring is left empty with its count of drops. It is supposed that no two of the statements have
    -- one hash and different fingerprints.
    pub drain_hook_ring_lem :
        {ring : Ring} (last_dropped my_db now slo_threshold_ms : ℕ) (commits : Bool)
        → IsValid ring
        → Logged Statement
            (plans_of formats (own epoch_to_utc from_utf8_lossy my_db (pending ring)))
        → let (round, last, ring') =
            drain_hook_ring ring last_dropped my_db now slo_threshold_ms commits in
          let mine = own epoch_to_utc from_utf8_lossy my_db (pending ring) in
          (rows : List StatRow) × AreComplete formats setting h mine slo_threshold_ms rows
          × (round.persisted ≡ (if panics mine || not commits then [] else rows))
          × (round.foreign + length mine ≡ ring.len)
          × (round.new_drops ≡ ring.dropped_total - last_dropped)
          × (last ≡ ring'.dropped_total)
          × (pending ring' ≡ [])
    unfolding drain_hook_ring
    drain_hook_ring_lem {ring} last_dropped my_db now slo_threshold_ms commits valid logged =
        let (delivered, counted, dropped, empty, captured, kept) =
          drain_lem epoch_to_utc from_utf8_lossy my_db now valid in
        let mine = own epoch_to_utc from_utf8_lossy my_db (pending ring) in
        let (rows, complete, left) = rows_of_captures-AreComplete mine slo_threshold_ms logged in
        (
          rows,
          complete,
          ap (λ out. if commits then rows_of_captures out slo_threshold_ms else []) delivered
              ∙ ap (λ out. if commits then out else []) left
              ∙ persisted_if (panics mine) commits rows,
          ap (λ out. (drain epoch_to_utc from_utf8_lossy ring my_db now).0.2 + length out)
                (sym delivered)
              ∙ counted,
          ap (λ n. n - last_dropped) dropped,
          dropped ∙ sym kept,
          empty,
        )
