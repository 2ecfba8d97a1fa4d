-- ===== src/Jobs.antt =====
-- src/jobs: job definitions, their envelope, and the registry.
pub mod Types
pub mod Definitions
pub mod Registry
pub mod Processors
pub mod Names
pub mod Work
pub mod Schemas
