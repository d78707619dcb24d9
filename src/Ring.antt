-- ===== src/Ring.antt =====
-- The telemetry ring, back/internal/ring.
pub mod Seq
