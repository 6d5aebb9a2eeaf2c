-- ===== src/Grouping.antt =====
-- crates/core/src/grouping.rs and the batch path of crates/core/src/log_parser.rs: plans grouped
-- by the fingerprint of their statement. The children: the model of the plans, the fingerprint
-- cache, the streaming grouper and the batch path.
pub mod Plans
pub mod Cache
pub mod Grouper
pub mod Batch
pub mod Streamed
pub mod Merged
mod Tests
