-- ===== src/Utils.antt =====
-- src/utils: serialising errors, and the abortable sleep.
pub mod SerializeError
pub mod Sleep
