-- ===== src/Pipeline/EndToEnd.antt =====
-- A capture on its way through the services.
use text.Mathlib.Text.{◌==◌ as str_eq}
use leo_telemetry.Base.{ℕ, ◌<◌, ◌≡◌, [], ◌∷◌, some, String}
use leo_telemetry.Float.{FloatOps}
use leo_telemetry.Models.{TelemetryReading}
use leo_telemetry.Redis.{Redis}
use leo_telemetry.Redis.View.{Blob}
use leo_telemetry.Exporter.{Registry}
use leo_telemetry.Timestamps.{Timestamp}

module _ (fl : FloatOps) (redis : Redis fl.F) (n : ℕ) (bound : 0 < n) where
  open redis use {
    Db, contents, lpop_cmd, sadd_cmd, expire_nx_cmd, lpop_result, lpop_law, sadd_result, sadd_law,
    expire_nx_law,
  }

  -- The list holds the one object.
  abbrev HoldsOne : String → Blob fl.F → Db → Type 0
  HoldsOne key b db = (contents db).lists key ≡ b ∷ []

  -- The list is empty.
  abbrev IsEmpty : String → Db → Type 0
  IsEmpty key db = (contents db).lists key ≡ []

  -- The reading can be compared with its satellite's newest time, if one is known.
  abbrev IsAlike : Registry fl.F → TelemetryReading fl.F → Type 0
  IsAlike registry r =
      (t : Timestamp)
      → registry.latest_exported r.norad_id ≡ some t
      → r.received_at.is_aware ≡ t.is_aware
