-- ===== src/Demux/Specs/Layouts.antt =====
-- The binary layouts against a satellite that packs its values into them.
pub mod OresatBeacon
pub mod HexPairs
pub mod Cape1Beacon
pub mod Cp16Beacon
