-- ===== src/Decode.antt =====
-- leo_telemetry/decode: from raw captures to decoded frames.
pub mod FrameSync
pub mod Cw
pub mod Ax25
pub mod Crc16
