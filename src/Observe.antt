-- ===== src/Observe.antt =====
-- leo_telemetry/observability/run.py: the passes of the exporter service, over the server that it
-- shares with the other stages and the registry that it serves. QUEUE_DEPTH is a function from its label.
pub mod Restart
pub mod Live
pub mod Agreement
pub mod Restores
use text.Mathlib.Text.{◌==◌ as str_eq}
use leo_telemetry.Base.{
  ℕ, List, [], ◌∷◌, Bool, true, false, Option, none, some, String, if◌then◌else◌,
}
use leo_telemetry.Base.Result.{Result, ok, raise, attribute_error}
use leo_telemetry.Float.{FloatOps}
use leo_telemetry.Models.{TelemetryReading}
use leo_telemetry.Redis.{Redis}
use leo_telemetry.Queues.{
  raw_queue_key, audio_queue_key, decoded_queue_key, telemetry_queue_key, pop_reading, qsize,
}
use leo_telemetry.Exporter.{Registry, export}
use leo_telemetry.Workers.Latest.{save, load_latest}

-- _QUEUE_KEYS
abbrev pub queue_keys : List (String × String)
queue_keys =
    ("raw", raw_queue_key)
    ∷ ("audio", audio_queue_key)
    ∷ ("decoded", decoded_queue_key)
    ∷ ("telemetry", telemetry_queue_key)
    ∷ []

module _ (fl : FloatOps) (redis : Redis fl.F) where
  open redis use {Db}

  -- _update_queue_depths
  unfoldable pub update_queue_depths :
      List (String × String) → Db → (String → Option ℕ) → String → Option ℕ
  update_queue_depths [] db depth = depth
  update_queue_depths ((queue_name, key) ∷ keys) db depth =
      update_queue_depths keys db
        (λ q. if str_eq queue_name q then some (qsize redis key db) else depth q)

  -- _export_once: whether a reading was exported. `has_store` says that a store was given.
  unfoldable pub export_once : Bool → Db → Registry fl.F → Result Bool × Db × Registry fl.F
  unfolding pop_reading
  export_once has_store db r =
      let (popped, db') = pop_reading redis db in
      elim popped [
        | raise e ↦ (raise e, db', r)
        | ok none ↦ (ok false, db', r)
        | ok (some reading) ↦ elim (export fl r reading true) [
          | raise e ↦ (raise e, db', r)
          | ok r' ↦ elim has_store [
            | false ↦ (ok true, db', r')
            | true ↦ elim (save redis db' reading) [
              | raise e ↦ (raise e, db', r')
              | ok db'' ↦ (ok true, db'', r')
            ]
          ]
        ]
      ]

  -- The loop of _replay_persisted_readings; a stored None has no fields to export.
  pub replay_readings :
      List (Option (TelemetryReading fl.F)) → Registry fl.F → Result (Registry fl.F)
  replay_readings [] r = ok r
  replay_readings (none ∷ readings) r = raise attribute_error
  replay_readings (some reading ∷ readings) r = elim (export fl r reading false) [
    | raise e ↦ raise e
    | ok r' ↦ replay_readings readings r'
  ]

  -- _replay_persisted_readings
  unfoldable pub replay_persisted_readings : Db → Registry fl.F → Result (Registry fl.F)
  replay_persisted_readings db r = elim (load_latest redis db) [
    | raise e ↦ raise e
    | ok readings ↦ replay_readings readings r
  ]
