-- ===== src/Tests/Systems.antt =====
-- The services together, and the queue of raw frames against the queue in memory.
use leo_telemetry.Timestamps.{utc}
use leo_telemetry.Models.{TelemetryReading, RawFrame}
use leo_telemetry.Decode.Ax25.{decode_frame}
use leo_telemetry.Decode.Ax25.RoundTrip.{decode_frame-build}
use leo_telemetry.Decode.Ax25.Encode.{Address, build_ax25_frame, path_bytes}
use leo_telemetry.Base.{
  codes, some, Bool-cases, inl, inr, ◌==◌, if◌then◌else◌, ℕ, ◌≡◌, refl, List, [], ◌∷◌, false, none,
  arith,
}
use leo_telemetry.Base.Int.{ℤ}
use leo_telemetry.Base.Result.{Result, ok}
use leo_telemetry.Redis.View.{Contents, reading, hset}
use leo_telemetry.Redis.Memory.{memory}
use leo_telemetry.Queues.Refine.{Call, pushes, pops, lapses}
use leo_telemetry.Exporter.{Registry}
use leo_telemetry.Observe.Agreement.{Agrees}
use leo_telemetry.Observe.Restores.{replay_persisted_readings_restores}
use leo_telemetry.Queues.{telemetry_queue_key}
use leo_telemetry.Observe.{replay_persisted_readings}
use leo_telemetry.Pipeline.{Stage, WellFormed}
use leo_telemetry.Pipeline.Provenance.{Inputs}
use leo_telemetry.Pipeline.System.{System, Reach, here, next, polls, decodes, fresh_registry}
use leo_telemetry.Pipeline.Safety.{Reach-WellFormed}
use leo_telemetry.Workers.Decode.{decode_once}
use leo_telemetry.Workers.Demux.{Failure}
use leo_telemetry.Workers.Ingest.{poll_once}
use leo_telemetry.Workers.Latest.{hash_key}
use leo_telemetry.Tests.Data.{
  unhashed, sum16, with_list, integers, capture, status_reading, status, ground_station,
  ui_no_layer_3,
}

abbrev pub empty : Contents ℤ
empty = record { lists = λ k. []; sets = λ k. []; ttls = λ k. none; hashes = λ k. [] }

abbrev calls : List Call
calls = pushes capture ∷ pushes capture ∷ pops ∷ lapses ∷ pushes capture ∷ pops ∷ []

abbrev nine : Stage → ℕ
nine s = 9

abbrev start : System integers (memory ℤ) nine unhashed sum16 60
start = record { db = empty; registry = fresh_registry }

abbrev polled : System integers (memory ℤ) nine unhashed sum16 60
polled = record start { db = (poll_once (memory ℤ) unhashed 60 9 (ok (capture ∷ [])) empty).1 }

abbrev decoded_state : System integers (memory ℤ) nine unhashed sum16 60
decoded_state = record polled { db = (decode_once (memory ℤ) sum16 9 polled.db).1 }

abbrev reached : Reach integers (memory ℤ) nine unhashed sum16 60 start decoded_state
reached = next (next here (polls (ok (capture ∷ [])))) decodes

WellFormed-empty : WellFormed nine empty
WellFormed-empty = record { typed = λ s. tt; bounded = λ s. omega arith; latest = tt }

Reach-WellFormed_example : WellFormed nine decoded_state.db
Reach-WellFormed_example =
    Reach-WellFormed integers (memory ℤ) nine unhashed sum16 60 (λ s. omega arith) reached
      WellFormed-empty

abbrev nothing : Inputs
nothing = record { frames = []; observations = []; downloads = [] }

abbrev remembered : Contents ℤ
remembered = hset empty hash_key 25544 (reading status_reading)

abbrev fresh : Registry ℤ
fresh = fresh_registry

-- The ISS was last heard at 150, and an older reading waits.
abbrev newer_reading : TelemetryReading ℤ
newer_reading = record status_reading { received_at = utc 150 }

abbrev waiting : Contents ℤ
waiting =
    hset (with_list telemetry_queue_key (reading status_reading ∷ [])) hash_key 25544
      (reading newer_reading)

abbrev heard_once : Registry ℤ
heard_once = record fresh { latest_exported = λ n. if 25544 == n then some (utc 150) else none }

Agrees-waiting : Agrees waiting heard_once
Agrees-waiting = record {
  same = λ j. elim (Bool-cases (25544 == j)) [
    | inl iss ↦ (some newer_reading, rw iss refl, rw iss refl)
    | inr other ↦ (none, rw other refl, rw other refl)
  ];
}

replay_persisted_readings_restores_example :
    (r' : Registry ℤ) × (replay_persisted_readings integers (memory ℤ) waiting fresh ≡ ok r')
    × ((j : ℕ) → r'.latest_exported j ≡ heard_once.latest_exported j)
replay_persisted_readings_restores_example =
    replay_persisted_readings_restores integers (memory ℤ) waiting heard_once fresh
      (newer_reading ∷ []) refl (tt, tt) Agrees-waiting (λ j. refl)

abbrev pub iss : Address
iss = record { callsign = codes "RS0ISS"; ssid = 0 }

abbrev pub iss_capture : RawFrame
iss_capture = record capture {
  norad_id = 25544;
  raw_bytes =
      build_ax25_frame sum16 (path_bytes ground_station (iss ∷ [])) ui_no_layer_3 (codes ">ok")
        false;
}

pub decode_frame-iss : decode_frame sum16 (some iss_capture) false ≡ ok (some status)
decode_frame-iss =
    decode_frame-build sum16 ground_station iss [] ui_no_layer_3 (codes ">ok") false iss_capture
      (record {
        dest_valid = record { fits = omega arith; graphic = refl };
        src_valid = record { fits = omega arith; graphic = refl };
        digipeaters_valid = tt;
        two_bytes = refl;
      })
      refl refl

abbrev pub no_failure : Failure
no_failure = record { message = ""; traceback = ""; now = 0 }
