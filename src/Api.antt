-- ===== src/Api.antt =====
-- src/api: what the HTTP API answers.
pub mod Errors
pub mod Jobs
pub mod App
pub mod Health
pub mod Dashboard
pub mod Setup
