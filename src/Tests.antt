-- ===== src/Tests.antt =====
-- The properties at concrete inputs, and runs of the definitions.
mod Detection
mod Sequence
mod Batches
mod Fields
mod Settings
mod Delivery
mod Incidents
mod Queue
mod Heartbeats
mod Scans
mod ErrorLogs
mod Probes
mod Shutdowns
mod Scrubbing
mod Messages
mod Targets
mod Bodies
mod Gates
mod Ingestion
