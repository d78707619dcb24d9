-- ===== src/Lib.antt =====
-- UpControl, the monitoring service under back/: models of its core and proofs about them.
--
-- The program. The probe and the heartbeats report check results; the availability detector turns
-- them into openings and closings of incidents; the error-rate scan and the error-log scan read the
-- ingested lines; the incident lifecycle writes incidents, their timeline and the evidence, and
-- queues deliveries for the channels of the incident's project; the delivery worker sends them,
-- retries, and fails over to email when a channel's breaker is open. Ingested rows take their
-- sequence numbers from the allocator, pass the cardinality limiter and are handed over in batches.
--
-- The modules, and the code that each follows (paths from the repository's root):
--   * Detect.Availability: back/internal/detect/availability/availability.go. A Detector is its
--     threshold; Process is `process`, which returns the new state beside the transition.
--   * Detect.Suppression: back/internal/detect/suppression/suppression.go; Evaluate is `evaluate`.
--   * Detect.Scan: back/internal/detect/detect.go; scanProject is `scan_project`, over the
--     incident lifecycle and `evaluate`. The telemetry store's answers and the floating-point
--     detector are fields of `Telemetry`.
--   * Detect.Errorlog: back/internal/detect/errorlog/errorlog.go; scanProject is `scan_project`. Go
--     ranges over the map of windows in any order: the order is an argument. A ticket is its
--     idempotency key, with the minute counted from the zero time.
--   * Channel.Settings: back/internal/channel/notify/notify.go; Resolve, Patch.Apply and clamp.
--   * Deliver.Retry and Deliver.Breaker: back/internal/deliver/deliver.go.
--   * Deliver.Queue and Deliver.Worker: back/internal/deliver/worker.go with the queries of
--     back/internal/storage/pg/queries/delivery.sql. processItem is `decide` (everything before the
--     send) and `carry_out` (the send and what is written after it); Tick is `tick`.
--   * Ring.Seq: back/internal/ring/seq/seq.go. `next_seq` is a call of Next that nothing interrupts;
--     Ring.Seq.Steps has the two critical sections and the lease as steps of goroutines.
--   * Ingest.Cardinality: back/internal/ingest/cardinality/cardinality.go.
--   * Ingest.Batcher: back/internal/ingest/batcher/batcher.go, each call as one step; the log of the
--     model is what the sink was handed.
--   * Ingest.Scrub: back/internal/ingest/scrub/scrub.go; Scrub is `scrub`, matchAt is `match_at`. A
--     matcher takes the rest of the line and the byte before it, in place of the line and an index.
--   * Ingest.Fingerprint: back/internal/ingest/fingerprint.go; mask is `mask`, and a pass of its loop
--     is `round`. Ingest.Normalize: back/internal/ingest/normalize/normalize.go.
--   * Ingest.Decode: back/internal/ingest/decode/decode.go. Json has the values that json.Unmarshal
--     makes, Times the int64 timestamps, Records the record and its level, Formats the sniffing, and
--     Bodies a decoder for each form with Decode, `decode`.
--   * Ingest.Handle, Ingest.Rows, Ingest.Attrs, Ingest.Overload: back/internal/ingest/ingest.go; Handle
--     is `handle`, buildRows `build_rows`, capAttrs `cap_attrs`. Ingest.Metrics: metrics.go there. What
--     the interfaces KeyResolver, SeqAllocator, Idempotency and BatchSink hide is a parameter or, for
--     the sink, the list of what was added; Ingest.Rows.Leased puts Ring.Seq behind SeqAllocator.
--   * Ingest.Public: back/internal/ingest/public.go; GatePublic is `gate_public`, the limiter's allow
--     `allow`. The user agents that are bots are a parameter, as they are in the code.
--   * Probe.Guard: back/internal/probe/guard/guard.go. An address is the number that its bytes write;
--     the methods of net.IP and net.IPNet are written out.
--   * TargetKey: back/internal/targetkey/targetkey.go, over what url.Parse and idna return.
--   * Incident.Seats, Incident.Store, Incident.Notify, Incident.Lifecycle:
--     back/internal/incident/incident.go. Store has the tables and the queries of
--     back/internal/storage/pg/queries (incident.sql, detect.sql, schedule.sql, delivery.sql). Which
--     queries fail is a record of Booleans, so that every error path can be run.
--   * Heartbeat: back/internal/heartbeat/heartbeat.go over Detect.Availability and
--     Incident.Lifecycle; Ping is `ping`, Tick is `tick`, whose rows go through `miss`.
--   * Probe: back/internal/rpc/probeservice.go over Detect.Availability and Incident.Lifecycle;
--     SubmitResults is `submit_results`, whose accepted results go through `record_result`.
--   * Health: back/internal/platform/health/health.go; Run is `run`, Snapshot `snapshot`.
--   * Shutdown: back/internal/platform/shutdown/shutdown.go; Shutdown is `shut_down`, given which
--     tasks have reported when their results are drained.
--   * Incident.Lifecycle.Promise: the set of monitors that are down, which Open and Close keep.
--   * Prelude: the shared lists, maps, tests and the clock, and Go strings as lists of bytes. Times
--     are nanoseconds since Go's zero time, so that 0 is the zero time, and Sub saturates as time.Time.Sub does. Tests holds runs at
--     concrete inputs.
--
-- Numbers are unbounded, but for Sub: attempts, counters and sequence numbers are counted one by one
-- and do not come near 2^63. The loops are recursion on the list they range over. The
-- scrubber and the mask move on by whole matches: they take fuel, one round for each byte of the text.
-- Texts are ASCII where the code trims, lowers or compares them. An attribute map is the list of its
-- entries, whose order no count depends on.
--
-- Not modelled: the text of alerts and payloads, JSON and hashing, the HTTP requests of the channels,
-- SQL beyond the queries named above, and failures of writes whose errors the delivery worker and the
-- probe service drop.
-- The batcher's calls are not interleaved, and POST /i is one request after another. The parts of the
-- service outside the modules above (the API, the probe's leases and executor, storage, the front
-- end) are not modelled.
pub mod Prelude
pub mod Detect
pub mod Channel
pub mod Deliver
pub mod Ring
pub mod Ingest
mod Tests
pub mod Incident
pub mod Heartbeat
pub mod Probe
pub mod Health
pub mod Shutdown
pub mod TargetKey
