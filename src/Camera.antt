-- ===== src/Camera.antt =====
-- The USB cameras (camera/ and app/api/v1/camera.py).
pub mod Stream
pub mod Analyzer
pub mod Motion
pub mod Capture
