-- ===== src/Tests.antt =====
-- Tests of the development: each property at a concrete input.
pub mod Data
pub mod Scans
pub mod Served
pub mod Counts
pub mod Logs
pub mod Access
pub mod Tallies
