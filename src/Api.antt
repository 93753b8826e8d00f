-- ===== src/Api.antt =====
-- app/auth and app/api/v1: who may call what, and the operator's decision on a scan.
pub mod Access
pub mod Decision
pub mod Lifecycle
pub mod Hops
pub mod Hub
pub mod Admin
