-- ===== src/Deliver.antt =====
-- The alert delivery pipeline, back/internal/deliver.
pub mod Retry
pub mod Breaker
pub mod Queue
pub mod Worker
