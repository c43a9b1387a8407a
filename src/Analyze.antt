-- ===== src/Analyze.antt =====
-- crates/oath-analyze: what a scan reports and the score made of it.
pub mod Report
pub mod Score
