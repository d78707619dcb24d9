-- ===== src/Detect.antt =====
-- The detection core, back/internal/detect.
pub mod Availability
pub mod Suppression
pub mod Scan
pub mod Errorlog
