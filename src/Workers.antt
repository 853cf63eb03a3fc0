-- ===== src/Workers.antt =====
-- The service loops between the queues, one pass of each: leo_telemetry/decode/run.py,
-- decode/audio_run.py, demux/run.py, demux/decoupled_run.py, ingest/run.py,
-- observability/last_readings.py; and their lives from start to end. A worker's state is the Redis
-- server it shares with the others.
pub mod Decode
pub mod Audio
pub mod Demux
pub mod Decoupled
pub mod Ingest
pub mod Latest
pub mod Service
pub mod Polling
