-- ===== src/Ingest/Decode.antt =====
-- The decoder of a posted body, back/internal/ingest/decode/decode.go.
pub mod Json
pub mod Times
pub mod Records
pub mod Formats
pub mod Bodies
pub mod Levels
pub mod Loki
pub mod Accounts
pub mod Warned
