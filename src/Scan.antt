-- ===== src/Scan.antt =====
-- crates/core/src/simd_scan.rs: the byte scanners of the log parser.
pub mod Verdict
pub mod Lanes
pub mod Plain
pub mod Masks
pub mod Regex
pub mod Timestamp
pub mod Whitespace
pub mod Literal
mod Tests
