-- ===== src/Witnesses.antt =====
-- Concrete scans, messages, logs and drivers on which the theorems are applied.
mod Data
mod Unicode
mod Vlm
mod Verdicts
mod Contracts
mod State
mod Api
mod Audit
mod Datalayer
mod Acquisition
mod Hops
mod Detector
mod Pipeline
mod Keys
mod Camera
mod Evaluation
mod Admin
mod Storage
mod Versions
