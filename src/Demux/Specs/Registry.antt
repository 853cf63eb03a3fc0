-- ===== src/Demux/Specs/Registry.antt =====
-- leo_telemetry/demux/specs/__init__.py: the spec function of a NORAD id.
use leo_telemetry.Base.{ℕ, List, Option, none, some, ◌==◌, if◌then◌else◌}
use leo_telemetry.Base.Result.{Result}
use leo_telemetry.Float.{FloatOps}
use leo_telemetry.Demux.Common.{Metrics}
use leo_telemetry.Demux.Specs.Oresat
use leo_telemetry.Demux.Specs.Cp16
use leo_telemetry.Demux.Specs.Cape1
use leo_telemetry.Demux.Specs.Sonate2
use leo_telemetry.Demux.Specs.Aprs

module _ (fl : FloatOps) where
  abbrev pub SpecFunc : Type 0
  SpecFunc = List ℕ → Result (Metrics fl)

  unfoldable pub get_spec : ℕ → Option SpecFunc
  get_spec norad_id =
      if norad_id == 60525
      then some (Oresat.demultiplex_payload fl)
      else if norad_id == 68458
      then some (Cp16.demultiplex_payload fl)
      else if norad_id == 31130
      then some (Cape1.demultiplex_payload fl)
      else if norad_id == 59112
      then some (Sonate2.demultiplex_payload fl)
      else if norad_id == 25544
      then some (Aprs.demultiplex_payload fl)
      else none
