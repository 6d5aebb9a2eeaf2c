-- ===== src/Lib.antt =====
-- pg-plansight: a verification library for the core of the program.
--
-- pg-plansight reads PostgreSQL's auto_explain logs, groups the executions of one statement by a
-- fingerprint and reports the slow ones; an extension captures plans inside a backend into a ring
-- in shared memory, from which an exporter drains them. Modelled here are parts that carry its
-- own logic.
--
--   Prelude        Shared: Boolean tests on native numbers (Prelude/Tests), lists with native
--                  lengths (Prelude/Lists), association lists that stand for hash maps
--                  (Prelude/Maps), and sums over their values (Prelude/Weights).
--   Ring           crates/pg_extension/src/ring.rs. `Ring` is the struct, `push_rec`,
--                  `take_recs_into`, `record_overhead`, `reset_overhead` and `overhead_snapshot`
--                  are its methods, `push`, `drain` and `stats` the free functions that lock it.
--                  Each call holds the lock throughout, so that a history is a list of calls:
--                  Ring/History. Ring/Refine compares the ring with a log of captures.
--   Scan           crates/core/src/simd_scan.rs: the timestamp, white space and literal scanners,
--                  each as the loop over bytes and as the kernel over blocks of 16. The vector
--                  operations of fearless_simd are the fields of the record `Simd` (Scan/Verdict),
--                  with the behaviour that its documentation gives lane by lane. Scan/Regex holds
--                  the greedy meaning of the log's timestamp pattern.
--   Grouping       crates/core/src/grouping.rs, with the types of crates/core/src/models.rs and the
--                  batch path of crates/core/src/log_parser.rs. Grouping/Plans holds the plans and
--                  `GroupAccumulator`, Grouping/Cache the fingerprint cache, Grouping/Grouper the
--                  streaming `QueryGrouper`, Grouping/Batch `get_processed_queries`. `xxh3_64` and
--                  `normalize_query_enhanced` are the fields of `Hashing`, any functions.
--   Traversal      crates/core/src/analysis/traversal.rs, with `NodePath` of
--                  crates/core/src/analysis/mod.rs and the tree of crates/core/src/plan_parser.rs.
--                  A visitor is a record of what its methods do to its state. Traversal/Preorder,
--                  Traversal/Visits and Traversal/Levels hold the recursive definitions that the
--                  loops are compared with, Traversal/Paths is about `get_node_at_path`.
--                  Traversal/Relations is `NodeRelationshipAnalyzer`, Traversal/Ancestry about it.
--
--   Collector      crates/exporter/src/collector.rs, with `create_reader_with_range` of
--                  crates/core/src/log_parser.rs and `is_log_line_start` of
--                  crates/core/src/parser_utils.rs. Collector/Boundary is `last_entry_boundary`,
--                  Collector/Range `parse_range_blocking`, Collector/File `process_log_file`,
--                  Collector/Remaining `process_remaining_content`, Collector/Cycle the loops over
--                  all files and the retention pass. A `FileView` is what one call finds outside,
--                  failures included; the parser, the grouper and the decompressors are the fields
--                  of `Intake`, any functions; the `processed_files` table is an association list.
--                  The other files are about these: Lines and Entries about the boundary, Reach and
--                  Reads about a range, Moves, Progress and Settles about one visit, History,
--                  Liveness, Failures and Separate about many.
--
--   Log            The log file parser of crates/core/src: Log/Prefix is log_line_prefix.rs,
--                  Log/Builders parsing/plan_builders.rs, Log/State the state machine of
--                  parsing/log_entry_parser.rs, Log/Reader the read loop `parse_into_sink` of
--                  log_parser.rs, its sinks, and `LogEntryParser`. A line's bytes become a text by
--                  `decode`, any function; the parsers of plans, serde_json, the regular
--                  expressions, and the splitting of a line at its timestamp are the fields of
--                  `Formats` and `Regex`, any functions. Log/Tokens is about the prefix, the other
--                  files are about the loop: it ends (Fuel), cuts lines (Lines), reads a log that
--                  is put together of two (Ahead, Both, Split), agrees with `LogEntryParser`
--                  (Agree), and bounds an entry (Limit).
--
--   Aggregate      crates/pg_extension/src/aggregate.rs, with `query_plan_from_capture` of
--                  crates/core/src/capture.rs and the buckets of crates/core/src/latency.rs
--                  (Aggregate/Latency). Aggregate/Rows is `build_stat_row`, Aggregate/Captures
--                  `aggregate_captures`, which uses Grouping and the text builder of Log, and
--                  Aggregate/Worker `drain_hook_ring` of crates/pg_extension/src/bgworker.rs, which
--                  joins Ring and Aggregate. Floating-point arithmetic, a group's statistics in it, and
--                  the analyses of a plan are fields of `Setting`, any functions. Whether a batch panics is any test
--                  of its captures. Aggregate/Sound, Aggregate/Balance and Aggregate/Calls are about
--                  the counts of a row and of all rows, Aggregate/Ids about the ids of rows, and
--                  Aggregate/Groups about the groups that rows are made of.
--
--   Tail           `read_new_complete` and `flush_cycle` of crates/pg_extension/src/bgworker.rs,
--                  which follow a log file by a stored offset. A `Cycle` says what was written
--                  before it, whether the file can be read, whether SPI returns a soft error, which
--                  is taken to roll the transaction back, and whether the transaction commits.
--                  A file is not written to between the measurement of its size and the read.
--                  Tail/Reads is about which bytes are read, Tail/Stall about where it stops.
--
-- Numbers are native, and what a machine integer wraps is written out. An `f64` is its bit pattern:
-- no floating-point arithmetic is modelled, only copies, `total_cmp` and comparisons. A hash map is an
-- association list in the order of first insertion; a B-tree map is a list sorted by key. A panic,
-- such as an index out of range, is a missing result.
--
-- Loops run by recursion on the list or the number that they consume; the loops over blocks of
-- bytes run on fuel, and each round takes a whole block off the bytes; the walks over a plan run on
-- fuel as well, of one round for each node, or three where a node has three frames. That so much is
-- enough is part of the theorems.
--
-- Not modelled: locks and shared memory as such, the regular expressions of the log
-- parser, the parsers of plans, the analysers of plan trees, SQL normalisation, floating-point
-- statistics, the metrics of the exporter with its configuration and server, the SQL of its state
-- database and of the extension, the extension's hooks, the terminal interface, and benchmarks and tests.
pub mod Prelude
pub mod Ring
pub mod Scan
pub mod Grouping
pub mod Traversal
pub mod Collector
pub mod Log
pub mod Aggregate
pub mod Tail
