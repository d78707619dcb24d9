-- ===== src/Ingest/Handle/Takes.antt =====
-- When POST /i takes a batch, back/internal/ingest/ingest.go.
