-- ===== src/State.antt =====
-- app/state and app/db/models.py: the life of a scan, and the alert thresholds.
pub mod Machine
pub mod Session
pub mod Store
pub mod Thresholds
