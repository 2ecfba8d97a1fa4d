-- ===== src/Config.antt =====
-- src/config: the constants of the program and its environment.
pub mod Defaults
pub mod Schema
pub mod Env
