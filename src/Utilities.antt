-- ===== src/Utilities.antt =====
-- The package `utilities`.
pub mod Logging
pub mod Handler
