-- ===== src/Workers/Service.antt =====
-- The lives of the services, from the start to the end of `run`: leo_telemetry/decode/run.py,
-- decode/audio_run.py, demux/run.py, demux/decoupled_run.py, ingest/run.py, observability/run.py.
use leo_telemetry.Base.{ℕ, List, [], ◌∷◌, Bool, true, if◌then◌else◌, Option, String}
use leo_telemetry.Base.Result.{Error, Result, ok, raise}
use leo_telemetry.Float.{FloatOps}
use leo_telemetry.Redis.{Redis}
use leo_telemetry.Config.{Env, float_from_env}
use leo_telemetry.Exporter.{Registry}
use leo_telemetry.Workers.Decode.{decode_once}
use leo_telemetry.Workers.Audio.{decode_audio_once}
use leo_telemetry.Workers.Demux.{Failure, demux_once}
use leo_telemetry.Workers.Decoupled.{decoupled_demux_once}
use leo_telemetry.Observe.{queue_keys, update_queue_depths, export_once, replay_persisted_readings}

-- A round of a service's loop: whether the stop event is set when the loop looks at it, and what the rest
-- of the world does to the state until the next pass, while the service sleeps or waits.
pub record Round {ℓ} (S : Type ℓ) : Type ℓ where
  pub is_set : Bool
  pub others : S → S

-- What a `finally` closes.
pub data Resource : Type 0 where
  redis_connection http_client client audio_client store tracker server : Resource

pub data Outcome : Type 0 where
  running stopped : Outcome
  crashed : Error → Outcome

-- A service after its rounds, with what its `finally` has closed.
pub record Service {ℓ} (S : Type ℓ) : Type ℓ where
  pub outcome : Outcome
  pub state : S
  pub closed : List Resource

-- `while not stop_event.is_set()` in its `try`, with the `finally`, which closes what the caller lists:
-- each `run` below lists what its own `finally` closes. The wait for the stop event after an
-- idle pass changes nothing of the state.
module _ {ℓ} {S : Type ℓ} (once : S → Result Bool × S) (resources : List Resource) where
  unfoldable pub serve : List (Round S) → S → Service S
  serve [] s = record { outcome = running; state = s; closed = [] }
  serve (round ∷ rounds) s =
      let (answer, s') = once s in
      let rest = serve rounds (round.others s') in
      if round.is_set
      then record { outcome = stopped; state = s; closed = resources }
      else elim answer [
        | raise e ↦ record { outcome = crashed e; state = s'; closed = resources }
        | ok processed ↦ rest
      ]

-- The start of `run` has raised: there is no `finally` yet.
abbrev pub fails {ℓ} : {S : Type ℓ} → Error → S → Service S
fails e s = record { outcome = crashed e; state = s; closed = [] }

module _ {F : Type 0} (redis : Redis F) (calc : List ℕ → ℕ) (n : ℕ)
    (parse_float : List ℕ → Option F) (env : Env) where
  -- run of decode/run.py
  unfoldable pub decode_run : List (Round redis.Db) → redis.Db → Service redis.Db
  unfolding serve decode_once
  decode_run rounds db =
      elim (float_from_env parse_float env "DECODE_POLL_INTERVAL_SECONDS" "2.0") [
        | raise e ↦ fails e db
        | ok poll_interval ↦ serve (decode_once redis calc n) (redis_connection ∷ []) rounds db
      ]

  -- run of decode/audio_run.py
  unfoldable pub audio_run :
      (String → Result (List ℕ)) → List (Round redis.Db) → redis.Db → Service redis.Db
  unfolding serve decode_audio_once
  audio_run fetch_bits rounds db =
      elim (float_from_env parse_float env "AUDIO_DECODE_POLL_INTERVAL_SECONDS" "2") [
        | raise e ↦ fails e db
        | ok poll_interval ↦
            serve (decode_audio_once redis calc fetch_bits n) (http_client ∷ redis_connection ∷ [])
              rounds db
      ]

module _ (fl : FloatOps) (redis : Redis fl.F) (n : ℕ) where
  -- run of demux/run.py, with its bounds; what a handler finds, and whether Redis fails it, may differ from pass to pass.
  unfoldable pub demux_run :
      ℕ
      → (redis.Db → Failure)
      → (redis.Db → Option Error)
      → List (Round redis.Db)
      → redis.Db
      → Service redis.Db
  unfolding serve demux_once
  demux_run dlq_max failure dlq_error rounds db =
      serve (λ d. demux_once fl redis n dlq_max (failure d) (dlq_error d) d) (redis_connection ∷ [])
        rounds db

  -- run of demux/decoupled_run.py, with its bound
  unfoldable pub decoupled_run : List (Round redis.Db) → redis.Db → Service redis.Db
  unfolding serve decoupled_demux_once
  decoupled_run rounds db =
      serve (decoupled_demux_once fl redis n) (redis_connection ∷ []) rounds db

-- The state of the exporter service: the server, the registry, and the gauge of the queues' depths.
pub record Exports (Db : Type 0) (F : Type 0) : Type 0 where
  pub db : Db
  pub registry : Registry F
  pub depth : String → Option ℕ

module _ (fl : FloatOps) (redis : Redis fl.F) where
  -- A round of the loop of observability/run.py.
  unfoldable pub export_pass : Exports redis.Db fl.F → Result Bool × Exports redis.Db fl.F
  unfolding export_once update_queue_depths
  export_pass s =
      let (answer, db', registry') = export_once fl redis true s.db s.registry in
      elim answer [
        | raise e ↦ (raise e, record { db = db'; registry = registry'; depth = s.depth })
        | ok exported ↦ (
          ok exported,
          record {
            db = db';
            registry = registry';
            depth = update_queue_depths fl redis queue_keys db' s.depth;
          },
        )
      ]

  -- run of observability/run.py, from the replay on. The tracker is a task of its own.
  unfoldable pub observability_run :
      List (Round (Exports redis.Db fl.F)) → Exports redis.Db fl.F → Service (Exports redis.Db fl.F)
  unfolding serve export_pass replay_persisted_readings
  observability_run rounds s = elim (replay_persisted_readings fl redis s.db s.registry) [
    | raise e ↦ fails e s
    | ok replayed ↦
        serve (export_pass) (tracker ∷ server ∷ redis_connection ∷ []) rounds
          (record { db = s.db; registry = replayed; depth = s.depth })
  ]
