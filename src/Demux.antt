-- ===== src/Demux.antt =====
-- leo_telemetry/demux: from decoded payloads to typed metrics.
pub mod Common
pub mod Errors
pub mod Specs
pub mod Demultiplex
