-- ===== src/Ingest/Scrub.antt =====
-- The scrubber of secrets, back/internal/ingest/scrub/scrub.go.
pub mod Secrets
pub mod Personal
pub mod Scan
pub mod Lengths
pub mod Dispatch
pub mod Rebuild
pub mod Luhn
