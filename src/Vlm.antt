-- ===== src/Vlm.antt =====
-- vlm: the guard on the texts of the language model, the verdict built around them, the screening.
pub mod Text
pub mod Pattern
pub mod Guard
pub mod Prompts
pub mod Generator
pub mod Screen
