-- ===== src/Demux/Demultiplex.antt =====
-- leo_telemetry/demux/demux.py
pub mod Outcomes
pub mod Answers
use leo_telemetry.Base.{ℕ, List, [], ◌∷◌, Bool, true, false, Option, none, some, not, if◌then◌else◌}
use leo_telemetry.Base.Result.{Result, ok, raise, ◌>>=◌}
use leo_telemetry.Float.{FloatOps}
use leo_telemetry.Models.{DecodedFrame, TelemetryReading}
use leo_telemetry.Demux.Specs.Registry.{get_spec}

abbrev is_empty : List ℕ → Bool
is_empty [] = true
is_empty (b ∷ bytes) = false

module _ (fl : FloatOps) where
  unfoldable pub demultiplex : DecodedFrame → Result (Option (TelemetryReading fl.F))
  demultiplex frame =
      if is_empty frame.payload
      then ok none
      else if not frame.crc_valid
      then ok none
      else elim (get_spec fl frame.norad_id) [
        | none ↦ ok none
        | some spec_func ↦ do
          metrics ← spec_func frame.payload
          ok (
              some (record {
                norad_id = frame.norad_id;
                received_at = frame.received_at;
                metrics = metrics;
              }))
      ]
