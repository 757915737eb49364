-- ===== src/Stats.antt =====
-- internal/stats: counters, bounded counters and trackers, and the summary of a CloudTrail scan.
pub mod Counter
pub mod Bounded
pub mod Summary
pub mod Hours
pub mod Paths
pub mod S3
pub mod Waf
pub mod Vpc
