-- ===== src/Aggregate.antt =====
-- Captures and groups reduced to rows of statistics (crates/pg_extension/src/aggregate.rs).
pub mod Latency
pub mod Rows
pub mod Sound
pub mod Balance
pub mod Captures
pub mod Calls
pub mod Ids
pub mod Groups
pub mod Worker
mod Tests
