-- ===== src/Scan/Tests.antt =====
-- Runs of the scanner models (crates/core/src/simd_scan.rs), with a vector unit of plain lists.
use pg_plansight.Prelude.{ℕ, ◌≡◌, refl, true, some, List, arith}
use pg_plansight.Scan.Verdict.{matched, Bytes}
use pg_plansight.Scan.Plain.{codes, lists}
use pg_plansight.Scan.Regex.{rests, first}
use pg_plansight.Scan.Timestamp.{
  timestamp_core_simd, timestamp_core_scalar, timestamp_prefix_len_scalar,
  timestamp_prefix_len_simd, timestamp_tail, fraction_tail, zone_tail, fraction_digits,
  zone_letters, zone_offset, offset_minutes, two_digits_at,
}
use pg_plansight.Scan.Timestamp.Kernel.{
  timestamp_core_simd-eq-scalar, timestamp_prefix_len_simd-eq-scalar,
}
use pg_plansight.Scan.Timestamp.Pattern.{
  timestamp_pattern, regex_verdict, timestamp_prefix_len_scalar-eq-pattern,
}
use pg_plansight.Scan.Whitespace.{leading_whitespace_simd, leading_whitespace_scalar}
use pg_plansight.Scan.Whitespace.Kernel.{leading_whitespace_simd-eq-scalar}
use pg_plansight.Scan.Literal.{find_literal_scalar, find_literal_simd, find_from}
use pg_plansight.Scan.Literal.Kernel.{find_literal_simd-eq-scalar}
use pg_plansight.Scan.Literal.First.{Finds, find_literal_scalar-Finds}

abbrev stamped : List ℕ
stamped = codes "2025-01-15 10:00:00.123 UTC [1] LOG"

abbrev indented : List ℕ
indented = codes "                      ->  Seq Scan on t"

stamped_prefix : timestamp_prefix_len_scalar stamped ≡ matched 27
unfolding timestamp_prefix_len_scalar timestamp_core_scalar timestamp_tail fraction_tail zone_tail
    fraction_digits zone_letters zone_offset offset_minutes two_digits_at
stamped_prefix = refl

stamped_offset : timestamp_prefix_len_scalar (codes "2025-01-15 10:00:00+02 x") ≡ matched 19
unfolding timestamp_prefix_len_scalar timestamp_core_scalar timestamp_tail fraction_tail zone_tail
    fraction_digits zone_letters zone_offset offset_minutes two_digits_at
stamped_offset = refl

stamped-Bytes : Bytes stamped
stamped-Bytes = omega arith

timestamp_core_simd-eq-scalar_example :
    timestamp_core_simd lists stamped ≡ timestamp_core_scalar stamped
timestamp_core_simd-eq-scalar_example = timestamp_core_simd-eq-scalar lists stamped stamped-Bytes

timestamp_prefix_len_simd-eq-scalar_example :
    timestamp_prefix_len_simd lists stamped ≡ timestamp_prefix_len_scalar stamped
timestamp_prefix_len_simd-eq-scalar_example =
    timestamp_prefix_len_simd-eq-scalar lists stamped stamped-Bytes

timestamp_prefix_len_scalar-eq-pattern_example :
    timestamp_prefix_len_scalar stamped
    ≡ regex_verdict stamped (first (rests timestamp_pattern stamped))
timestamp_prefix_len_scalar-eq-pattern_example =
    timestamp_prefix_len_scalar-eq-pattern stamped (omega arith)

leading_whitespace_example :
    leading_whitespace_simd lists true indented ≡ leading_whitespace_scalar indented
leading_whitespace_example = leading_whitespace_simd-eq-scalar lists true indented

leading_whitespace_indented : leading_whitespace_scalar indented ≡ matched 22
unfolding leading_whitespace_scalar
leading_whitespace_indented = refl

abbrev cost_marker : List ℕ
cost_marker = codes "(cost="

abbrev node_line : List ℕ
node_line = codes "Seq Scan on t  (cost=0.00..35.50 rows=2550 width=4)"

find_literal_node : find_literal_scalar node_line cost_marker ≡ some 15
unfolding find_literal_scalar find_from
find_literal_node = refl

find_literal_simd-eq-scalar_example :
    find_literal_simd lists node_line cost_marker ≡ find_literal_scalar node_line cost_marker
find_literal_simd-eq-scalar_example = find_literal_simd-eq-scalar lists node_line cost_marker

find_literal_scalar-Finds_example :
    Finds node_line cost_marker (find_literal_scalar node_line cost_marker)
find_literal_scalar-Finds_example = find_literal_scalar-Finds node_line cost_marker (omega arith)
