-- ===== src/Workers/Latest.antt =====
-- leo_telemetry/observability/last_readings.py
pub mod Newest
use leo_telemetry.Base.{ℕ, List, [], ◌∷◌, Option, none, some, String, true, false}
use leo_telemetry.Base.Result.{Result, ok, raise, attribute_error, ◌>>=◌, traverse}
use leo_telemetry.Models.{TelemetryReading}
use leo_telemetry.Redis.{Redis}
use leo_telemetry.Timestamps.{precedes}
use leo_telemetry.Redis.View.{Blob, reading}
use leo_telemetry.Queues.{load_reading}

abbrev pub hash_key : String
hash_key = "leo_telemetry:observability:last_readings"

module _ {F : Type 0} (redis : Redis F) where
  open redis use {Db, hget_cmd, hset_cmd, hgetall_cmd}

  -- LastReadingStore.save; the field is str(norad_id), which names the number, and a > b is b < a.
  unfoldable pub save : Db → TelemetryReading F → Result Db
  save db r = elim (hget_cmd db hash_key r.norad_id) [
    | none ↦ ok (hset_cmd db hash_key r.norad_id (reading r))
    | some stored ↦ elim (load_reading stored) [
      | raise e ↦ raise e
      | ok none ↦ raise attribute_error
      | ok (some existing) ↦ elim (precedes r.received_at existing.received_at) [
        | raise e ↦ raise e
        | ok true ↦ ok db
        | ok false ↦ ok (hset_cmd db hash_key r.norad_id (reading r))
      ]
    ]
  ]

  -- A stored None has no counterpart in the source's type: it stays in the list there.
  unfoldable pub load_latest : Db → Result (List (Option (TelemetryReading F)))
  load_latest db = traverse load_reading (hgetall_cmd db hash_key)
