-- ===== src/Observability.antt =====
-- src/observability: what the modelled code reports, and correlation ids.
pub mod Effects
pub mod Context
pub mod QueueDepth
pub mod Logger
pub mod Metrics
pub mod Labels
