-- ===== src/Detector.antt =====
-- detector: the labels of the model, and the adapter that turns its raw boxes into a result.
pub mod Taxonomy
pub mod Adapter
pub mod Evaluation
