-- ===== src/Comparison.antt =====
-- domain/comparison.py: which measurements may be merged.
pub mod Verdicts
pub mod Studies
pub mod Groups
pub mod Partition
mod Examples
