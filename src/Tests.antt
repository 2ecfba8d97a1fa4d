-- ===== src/Tests.antt =====
-- The theorems at concrete inputs.
pub mod Fixtures
pub mod Kit
pub mod Jobs
pub mod Workers
pub mod Failures
pub mod Shutdowns
pub mod Requests
pub mod EndToEnd
pub mod Schemas
pub mod Boot
pub mod Processes
pub mod Development
pub mod Refusals
pub mod Work
pub mod Lives
pub mod Bodies
