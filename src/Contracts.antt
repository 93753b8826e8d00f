-- ===== src/Contracts.antt =====
-- contracts/v1: the wire messages of the four hops and the validators that guard them.
pub mod Common
pub mod Acquisition
pub mod Detection
pub mod Verdict
pub mod Feedback
