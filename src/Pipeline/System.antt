-- ===== src/Pipeline/System.antt =====
-- The services side by side: a step is one pass of one of them, with whatever the outside answers.
use leo_telemetry.Base.{ℕ, List, Bool, Option, none, String}
use leo_telemetry.Base.Result.{Error, Result}
use leo_telemetry.Float.{FloatOps}
use leo_telemetry.Models.{RawFrame, AudioObservation}
use leo_telemetry.Redis.{Redis}
use leo_telemetry.Workers.Ingest.{poll_once, poll_audio_once}
use leo_telemetry.Workers.Decode.{decode_once}
use leo_telemetry.Workers.Audio.{decode_audio_once}
use leo_telemetry.Workers.Demux.{Failure, demux_once}
use leo_telemetry.Exporter.{Registry}
use leo_telemetry.Observe.{export_once}
use leo_telemetry.Pipeline.{Stage, raw, audio, decoded, telemetry, dead}

-- CollectorRegistry()
abbrev pub fresh_registry : {F : Type 0} → Registry F
fresh_registry = record {
  latest_exported = λ n. none;
  readings_total = λ n. 0;
  telemetry_metric = λ n name unit. none;
  last_reading_timestamp = λ n. none;
  readiness_score = λ n. none;
}

module _ (fl : FloatOps) (redis : Redis fl.F) (limit : Stage → ℕ) (sha256_hex : List ℕ → List ℕ)
    (calc : List ℕ → ℕ) (ttl : ℕ) where
  open redis use {Db, lapsed}

  pub record System : Type 0 where
    pub db : Db
    pub registry : Registry fl.F

  pub data Step (s : System) : System → Type 0 where
    polls :
        (answer : Result (List RawFrame))
        → Step s (record s { db = (poll_once redis sha256_hex ttl (limit raw) answer s.db).1 })
    polls_audio :
        (answer : Result (List AudioObservation))
        → Step s (record s { db = (poll_audio_once redis ttl (limit audio) answer s.db).1 })
    decodes : Step s (record s { db = (decode_once redis calc (limit decoded) s.db).1 })
    decodes_audio :
        (fetch_bits : String → Result (List ℕ))
        → Step s
            (record s { db = (decode_audio_once redis calc fetch_bits (limit decoded) s.db).1 })
    demuxes :
        (exc : Failure) (dlq_error : Option Error)
        → Step s (record s {
          db = (demux_once fl redis (limit telemetry) (limit dead) exc dlq_error s.db).1;
        })
    exports :
        (has_store : Bool)
        → Step s (record {
          db = (export_once fl redis has_store s.db s.registry).1;
          registry = (export_once fl redis has_store s.db s.registry).2;
        })
    restarts : Step s (record s { registry = fresh_registry })
    -- The time to live of a seen-set is over.
    expires : (seen_key : String) → Step s (record s { db = lapsed s.db seen_key })

  pub data Reach (s : System) : System → Type 0 where
    here : Reach s s
    next : {t u : System} → Reach s t → Step t u → Reach s u
