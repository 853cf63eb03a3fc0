-- ===== src/Tests/Exports.antt =====
-- The queue in memory and the exporter.
use leo_telemetry.Base.{ℕ, ◌≡◌, true, none, some, ◌==◌, if◌then◌else◌}
use leo_telemetry.Base.Int.{ℤ}
use leo_telemetry.Dedup.{DedupQueue, new, push, pop}
use leo_telemetry.Exporter.{Registry, export}
use leo_telemetry.Exporter.Monotone.{NotOlder, Mixed, export-NotOlder}
use leo_telemetry.Timestamps.{Timestamp, utc, IsBefore}
use leo_telemetry.Base.Result.{Error, ok, raise, type_error}
use leo_telemetry.Tests.Data.{unhashed, integers, capture, status_reading}

abbrev drained : DedupQueue
drained = (pop unhashed (push unhashed new capture).1).1

-- The ISS was last heard at 150.
abbrev registry : Registry ℤ
registry = record {
  latest_exported = λ n. if n == 25544 then some (utc 150) else none;
  readings_total = λ n. 1;
  telemetry_metric = λ n name unit. none;
  last_reading_timestamp = λ n. some (utc 150);
  readiness_score = λ n. none;
}

export-NotOlder_example :
    let outcome = export integers registry status_reading true in
    ((after : Registry ℤ)
      → outcome ≡ ok after
      → (j : ℕ) → NotOlder (registry.latest_exported j) (after.latest_exported j))
    × ((newest : Timestamp)
        → registry.latest_exported 25544 ≡ some newest
        → IsBefore (utc 100) newest
        → (after : Registry ℤ) × (outcome ≡ ok after)
          × (after.latest_exported ≡ registry.latest_exported)
          × (after.last_reading_timestamp ≡ registry.last_reading_timestamp)
          × (after.telemetry_metric ≡ registry.telemetry_metric)
          × (after.readiness_score ≡ registry.readiness_score))
    × ((e : Error)
        → outcome ≡ raise e
        → (e ≡ type_error) × Mixed (registry.latest_exported 25544) (utc 100))
    × (Mixed (registry.latest_exported 25544) (utc 100) → outcome ≡ raise type_error)
export-NotOlder_example = export-NotOlder integers registry status_reading true
