-- ===== src/Lib.antt =====
-- leo-telemetry: a pipeline of services for the telemetry of small satellites. Captures from the
-- SatNOGS networks are polled (ingest), deframed and checked (decode), parsed into readings by a
-- specification per satellite (demux), and exported (observability). The services share no memory:
-- they meet in the queues of one Redis server.
--
-- The files and the code they model, with paths from the repository's root:
-- - Models: leo_telemetry/common/models.py, leo_telemetry/common/satellites.py, and the records of
--   leo_telemetry/ingest/audio_client.py and leo_telemetry/demux/dlq.py. A record of the source is a
--   record with its fields; bytes and text are lists of numbers. A datetime (Timestamps) is aware or naive,
--   and comparing one with the other raises TypeError.
-- - Decode.FrameSync: leo_telemetry/decode/frame_sync.py. A bitstring is the list of its characters.
--   The loop that collects the flags runs on fuel, one more than the number of bits.
-- - Decode.Crc16: leo_telemetry/decode/crc16.py, with the third-party checksum as a parameter.
-- - Decode.Ax25: leo_telemetry/decode/ax25.py. The loop over the address fields runs on fuel, one
--   more than the number of bytes; `unfinished` is the answer of a loop that has used up its rounds. Decode.Ax25.Encode is the transmitter that
--   tests/test_decode/helpers.py describes.
-- - Decode.Cw: leo_telemetry/decode/cw.py and the constants of leo_telemetry/decode/constants.py.
-- - Demux.Common: leo_telemetry/demux/specs/common.py; Demux.Specs: a module for each file of
--   leo_telemetry/demux/specs/, and the registry of leo_telemetry/demux/specs/__init__.py;
--   Demux.Demultiplex: leo_telemetry/demux/demux.py. Demux.Common.Packing and Demux.Specs.Layouts are
--   the satellites that pack their values into those layouts.
-- - Redis: the interface of the server, its commands with their documented behaviour on a view of
--   the server's contents; Redis.Memory is a server that meets it.
-- - Queues: leo_telemetry/ingest/redis_dedup.py, leo_telemetry/ingest/redis_audio_queue.py,
--   leo_telemetry/decode/redis_decoded_queue.py, leo_telemetry/demux/redis_telemetry_queue.py,
--   leo_telemetry/demux/dlq.py, over that interface.
--   Queues.Refine compares the queue of raw frames with the queue in memory. The end of a seen-set's time
--   to live is an event of the server (Redis.lapsed), not of a clock.
-- - Workers: one pass of leo_telemetry/decode/run.py, leo_telemetry/decode/audio_run.py,
--   leo_telemetry/demux/run.py, leo_telemetry/demux/decoupled_run.py and leo_telemetry/ingest/run.py,
--   and leo_telemetry/observability/last_readings.py. A pass is a function from the server to an
--   answer or an exception and the server after it. Workers.Service is the life of a service: its
--   rounds, each with the stop event and what the other services do meanwhile, and its `finally`.
--   Workers.Polling is the ingest service, over its clients, the Redis server and the archive.
-- - Satnogs: leo_telemetry/ingest/client.py; Satnogs.Recordings: leo_telemetry/ingest/audio_client.py.
--   The HTTP client, the clock and the sleep are an interface (Satnogs.Web). The rate limiter's floats
--   are numbers of one unit of time.
-- - Archive: leo_telemetry/common/storage.py and leo_telemetry/ingest/backfill.py, over an interface of
--   the Postgres statements (Archive.Postgres); Archive.Table is a table that meets it.
-- - Afsk: leo_telemetry/decode/afsk1200.py. The loops are over any placing of a symbol's window and any
--   detector of tones, of which Afsk.signal_of is the code's. The inner loop runs on fuel, one more
--   than the number of samples, and answers `none` where that is used up: where a symbol starts at its
--   index or later and is not empty, which a sample rate below the baud rate breaks, it never is.
-- - Observe: the passes and the replay of leo_telemetry/observability/run.py, and
--   leo_telemetry/observability/live.py.
-- - Tracking: leo_telemetry/observability/tracking.py, the labels of
--   leo_telemetry/observability/metrics.py and the tracker of leo_telemetry/observability/run.py, with
--   Propagation for the calls of Skyfield, which is a parameter.
-- - Launcher: scripts/run_live_pipeline.py, over the operating system as a parameter.
-- - Config: the environment that the services read.
-- - Pipeline: the services side by side, a step relation over the shared server and the registry. A step
--   is one pass of the ingest, decode, audio, demux or exporter service, a restart of the exporter, or the end of
--   a seen-set.
--   The decoupled demux worker is not among them: it puts None on the telemetry queue. What a queue may
--   hold is a parameter of the lemmas on steps (Pipeline.Closed): objects of its class in Pipeline.Safety,
--   objects with a history in Pipeline.Provenance. Pipeline.Exports is the pass of the exporter,
--   Pipeline.Passes those of the workers.
-- - Dedup: leo_telemetry/ingest/dedup.py, the queue in memory, with the sequences of its operations
--   as a step relation.
-- - Exporter: leo_telemetry/observability/exporter.py, the registry's gauges and its counter as
--   functions from their labels; Readiness: leo_telemetry/scoring/readiness.py.
-- - Base, Chars, Float: lists, tests, results, Python's text operations, and the operations on
--   floats.
-- - Tests: the theorems at concrete inputs.
--
-- Exceptions are values (Base.Result), one constructor for each class that the code raises or tells
-- apart. Floating-point numbers are a parameter (Float.FloatOps): nothing is assumed of their
-- arithmetic, except by the named laws of Readiness.Range. A pickle is the object that it stores. Python's integers are unbounded, and so are
-- these.
--
-- Not modelled: what numpy and Skyfield compute, the decoding of a recording's container (soundfile), the
-- building of the HTTP requests,
-- the connection to Postgres where it fails during a backfill, the declarations of the Prometheus
-- families and the scrape endpoint, the signal handlers' installation, and logging. Redis commands do
-- not fail here, except where leo_telemetry/demux/run.py handles the failure of a push.
pub mod Afsk
pub mod Archive
pub mod Base
pub mod Chars
pub mod Config
pub mod Decode
pub mod Dedup
pub mod Demux
pub mod Exporter
pub mod Float
pub mod Launcher
pub mod Models
pub mod Observe
pub mod Pipeline
pub mod Propagation
pub mod Queues
pub mod Readiness
pub mod Redis
pub mod Satnogs
pub mod Tests
pub mod Timestamps
pub mod Tracking
pub mod Workers
