-- ===== src/Datalayer.antt =====
-- The data layer of the training loop (datalayer/).
pub mod Versions
pub mod Storage
pub mod Labels
pub mod Quality
pub mod Balance
pub mod Retrain
pub mod Loop
pub mod Ingestion
