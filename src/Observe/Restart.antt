-- ===== src/Observe/Restart.antt =====
-- What a restart of the exporter restores.
use leo_telemetry.Base.{
  sym, Bool, ℕ, ◌≡◌, refl, ◌∙◌, List, [], ◌∷◌, map, some, ==_refl, arith, inl, inr,
}
use leo_telemetry.Base.Result.{ok, ok-injective, traverse}
use leo_telemetry.Float.{FloatOps}
use leo_telemetry.Models.{TelemetryReading}
use leo_telemetry.Redis.{Redis}
use leo_telemetry.Redis.View.{Blob, reading}
use leo_telemetry.Exporter.{Registry, export, set_gauges}
use leo_telemetry.Exporter.Monotone.{export-cases, inc-latest}
use leo_telemetry.Timestamps.{Timestamp, NotBefore, NotBefore-refl}
use leo_telemetry.Queues.{load_reading}

-- The registry shows the satellite of the reading at the time of the reading or later.
abbrev pub Shows : {F : Type 0} → Registry F → TelemetryReading F → Type 0
Shows r x = (u : Timestamp) × (r.latest_exported x.norad_id ≡ some u) × NotBefore x.received_at u

module _ (fl : FloatOps) (redis : Redis fl.F) where
  open redis use {Db, contents, hgetall_law}

  pub export-Shows :
      (count : Bool) (r after : Registry fl.F) (x : TelemetryReading fl.F)
      → export fl r x count ≡ ok after
      → Shows after x
  export-Shows count r after x exported = elim (export-cases fl r x count) [
    | inl (done, (u, known, before)) ↦
        rw (← ok-injective (sym done ∙ exported), (inc-latest fl count r x.norad_id).0)
          (u, known, record { alike = before.alike; later = let e = before.earlier in omega arith })
    | inr (inl (done, fresh)) ↦
        rw
          (
            ← ok-injective (sym done ∙ exported),
            (inc-latest fl count (set_gauges fl r x) x.norad_id).0,
          )
          (x.received_at, rw ==_refl, NotBefore-refl x.received_at)
    | inr (inr (raised, mixed)) ↦ absurd (cc (raised, exported))
  ]

  pub load_all_readings :
      (readings : List (TelemetryReading fl.F))
      → traverse load_reading
          (map (λ (e : ℕ × Blob fl.F). e.1) (map (λ x. (x.norad_id, reading x)) readings))
        ≡ ok (map some readings)
  load_all_readings [] = refl
  load_all_readings (x ∷ readings) = rw (load_all_readings readings)
