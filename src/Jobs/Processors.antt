-- ===== src/Jobs/Processors.antt =====
-- The processors of src/jobs/definitions/*.job.ts.
pub mod Email
pub mod Report
pub mod Cleanup
