-- ===== src/Demux/Specs.antt =====
-- leo_telemetry/demux/specs: one module for each satellite, and the registry.
pub mod Layouts
pub mod Oresat
pub mod Cp16
pub mod Cape1
pub mod Sonate2
pub mod Aprs
pub mod Registry
