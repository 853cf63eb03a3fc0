-- ===== src/Readiness.antt =====
-- leo_telemetry/scoring/readiness.py. The bounds of the bands are decimal literals; a result of the
-- division or of the sum is what the floats make of it.
pub mod Range
use text.Mathlib.Text.{◌==◌ as str_eq}
use leo_telemetry.Base.{
  List, [], ◌∷◌, ◌&&◌, ◌||◌, not, Option, none, some, String, if◌then◌else◌, length,
}
use leo_telemetry.Base.Int.{pos, negsuc}
use leo_telemetry.Float.{FloatOps}
use leo_telemetry.Models.{TelemetryMetric, TelemetryReading}

module _ (fl : FloatOps) where
  pub record Bands : Type 0 where
    pub nom_low : fl.F
    pub nom_high : fl.F
    pub hard_low : fl.F
    pub hard_high : fl.F

  -- _HEALTH_BANDS.get(unit)
  pub health_bands : String → Option Bands
  health_bands unit =
      if str_eq unit "C"
      then some (record {
        nom_low = fl.decimal (negsuc 9) 0;
        nom_high = fl.decimal (pos 50) 0;
        hard_low = fl.decimal (negsuc 39) 0;
        hard_high = fl.decimal (pos 85) 0;
      })
      else if str_eq unit "V"
      then some (record {
        nom_low = fl.decimal (pos 33) 1;
        nom_high = fl.decimal (pos 84) 1;
        hard_low = fl.decimal (pos 0) 0;
        hard_high = fl.decimal (pos 12) 0;
      })
      else if str_eq unit "mV"
      then some (record {
        nom_low = fl.decimal (pos 3300) 0;
        nom_high = fl.decimal (pos 8400) 0;
        hard_low = fl.decimal (pos 0) 0;
        hard_high = fl.decimal (pos 12000) 0;
      })
      else if str_eq unit "%"
      then some (record {
        nom_low = fl.decimal (pos 0) 0;
        nom_high = fl.decimal (pos 90) 0;
        hard_low = fl.decimal (pos 0) 0;
        hard_high = fl.decimal (pos 100) 0;
      })
      else none

  abbrev pub one : fl.F
  one = fl.decimal (pos 1) 0

  abbrev pub no_health : fl.F
  no_health = fl.decimal (pos 0) 0

  -- _metric_health, where the unit has bands.
  pub band_health : Bands → fl.F → fl.F
  band_health b value =
      if not (fl.is_finite value)
      then no_health
      else if fl.le b.nom_low value && fl.le value b.nom_high
      then one
      else if fl.lt value b.hard_low || fl.lt b.hard_high value
      then no_health
      else if fl.lt value b.nom_low
      then fl.div (fl.sub value b.hard_low) (fl.sub b.nom_low b.hard_low)
      else fl.div (fl.sub b.hard_high value) (fl.sub b.hard_high b.nom_high)

  pub metric_health : fl.F → String → Option fl.F
  metric_health value unit = elim (health_bands unit) [
    | none ↦ none
    | some b ↦ some (band_health b value)
  ]

  pub contributions : List (TelemetryMetric fl.F) → List fl.F
  contributions [] = []
  contributions (m ∷ metrics) = elim (metric_health m.value m.unit) [
    | none ↦ contributions metrics
    | some health ↦ health ∷ contributions metrics
  ]

  -- sum(contributions) / len(contributions)
  abbrev pub mean : List fl.F → fl.F
  mean [] = one
  mean (h ∷ hs) = fl.div (fl.sum (h ∷ hs)) (fl.of_ℤ (pos (length (h ∷ hs))))

  pub compute_readiness_score : TelemetryReading fl.F → fl.F
  compute_readiness_score reading = mean (contributions reading.metrics)
