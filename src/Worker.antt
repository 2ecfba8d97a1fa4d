-- ===== src/Worker.antt =====
-- src/worker: running a job, dead-letter records, and shutdown.
pub mod Race
pub mod Processor
pub mod DeadLetter
pub mod Create
pub mod Shutdown
pub mod Life
pub mod Labelling
