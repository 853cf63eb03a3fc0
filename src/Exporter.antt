-- ===== src/Exporter.antt =====
-- leo_telemetry/observability/exporter.py. The registry's gauges and the counter are functions from
-- their labels; the satellite's label is a function of its NORAD id, and is left out.
pub mod Monotone
use text.Mathlib.Text.{◌==◌ as str_eq}
use leo_telemetry.Base.{
  ℕ, ◌+◌, List, [], ◌∷◌, Bool, true, false, ◌&&◌, Option, none, some, String, if◌then◌else◌, ltb,
  ◌==◌,
}
use leo_telemetry.Float.{FloatOps}
use leo_telemetry.Models.{TelemetryMetric, TelemetryReading}
use leo_telemetry.Timestamps.{Timestamp, precedes}
use leo_telemetry.Base.Result.{Result, ok, raise}
use leo_telemetry.Readiness.{compute_readiness_score}

-- _latest_exported, and READINGS_TOTAL, TELEMETRY_METRIC, LAST_READING_TIMESTAMP and READINESS_SCORE.
pub record Registry (F : Type 0) : Type 0 where
  pub latest_exported : ℕ → Option Timestamp
  pub readings_total : ℕ → ℕ
  pub telemetry_metric : ℕ → String → String → Option F
  pub last_reading_timestamp : ℕ → Option Timestamp
  pub readiness_score : ℕ → Option F

abbrev pub set_at {ℓ} : {A : Type ℓ} → (ℕ → A) → ℕ → A → ℕ → A
set_at f n v j = if n == j then v else f j

-- latest is not None and received_at < latest
abbrev pub is_stale : Option Timestamp → Timestamp → Result Bool
is_stale none received_at = ok false
is_stale (some latest) received_at = precedes received_at latest

module _ (fl : FloatOps) where
  -- The loop over the metrics.
  abbrev pub set_metrics :
      ℕ
      → List (TelemetryMetric fl.F)
      → (ℕ → String → String → Option fl.F)
      → ℕ
      → String
      → String
      → Option fl.F
  set_metrics norad [] g = g
  set_metrics norad (m ∷ metrics) g = set_metrics norad metrics (λ j name unit.
      if norad == j && (str_eq m.name name && str_eq m.unit unit)
      then some m.value
      else g j name unit)

  abbrev pub inc : Bool → Registry fl.F → ℕ → Registry fl.F
  inc count r norad =
      if count
      then record r { readings_total = set_at r.readings_total norad (r.readings_total norad + 1) }
      else r

  -- The registry with the reading's values.
  abbrev pub set_gauges : Registry fl.F → TelemetryReading fl.F → Registry fl.F
  set_gauges r reading = record {
    latest_exported = set_at r.latest_exported reading.norad_id (some reading.received_at);
    readings_total = r.readings_total;
    telemetry_metric = set_metrics reading.norad_id reading.metrics r.telemetry_metric;
    last_reading_timestamp =
        set_at r.last_reading_timestamp reading.norad_id (some reading.received_at);
    readiness_score =
        set_at r.readiness_score reading.norad_id (some (compute_readiness_score fl reading));
  }

  unfoldable pub export : Registry fl.F → TelemetryReading fl.F → Bool → Result (Registry fl.F)
  export r reading count =
      elim (is_stale (r.latest_exported reading.norad_id) reading.received_at) [
        | raise e ↦ raise e
        | ok true ↦ ok (inc count r reading.norad_id)
        | ok false ↦ ok (inc count (set_gauges r reading) reading.norad_id)
      ]
