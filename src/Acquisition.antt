-- ===== src/Acquisition.antt =====
-- The acquisition process (acquisition/).
pub mod Watchdog
pub mod Pipeline
