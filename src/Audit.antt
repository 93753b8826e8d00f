-- ===== src/Audit.antt =====
-- app/audit: the tamper-evident audit log.
pub mod Framing
pub mod Chain
