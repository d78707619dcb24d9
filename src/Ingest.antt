-- ===== src/Ingest.antt =====
-- The ingest path, back/internal/ingest.
pub mod Cardinality
pub mod Batcher
pub mod Scrub
pub mod Fingerprint
pub mod Normalize
pub mod Decode
pub mod Public
pub mod Attrs
pub mod Overload
pub mod Rows
pub mod Metrics
pub mod Handle
