-- ===== src/Workers/Polling.antt =====
-- leo_telemetry/ingest/run.py: the ingest service, over its clients, the Redis server and the archive.
-- `min_interval` and the clock count the same unit of time.
pub mod Archived
use leo_telemetry.Base.{ℕ, List, [], ◌∷◌, Bool, true, false, if◌then◌else◌, Option, none, some}
use leo_telemetry.Base.Result.{Result, ok, raise}
use leo_telemetry.Float.{FloatOps}
use leo_telemetry.Models.{RawFrame, AudioObservation}
use leo_telemetry.Redis.{Redis}
use leo_telemetry.Config.{Env, postgres_dsn_from_env}
use leo_telemetry.Archive.{Postgres, ensure_schema, insert_frame}
use leo_telemetry.Satnogs.{Web, poll}
use leo_telemetry.Satnogs.Recordings.{AudioResponse, poll_observations}
use leo_telemetry.Workers.Ingest.{poll_once, poll_audio_once}
use leo_telemetry.Workers.Service.{Round, Service, Resource, client, audio_client, store, serve}

-- _connect_store; `connect` is psycopg's, with the exception it raises, and `schema_fails` says that the
-- statement of ensure_schema raised one.
unfoldable pub connect_store :
    (pg : Postgres) → (List ℕ → Result pg.Db) → (pg.Db → Bool) → Env → Option pg.Db
unfolding postgres_dsn_from_env ensure_schema
connect_store pg connect schema_fails env = elim (postgres_dsn_from_env env) [
  | none ↦ none
  | some dsn ↦ elim (connect dsn) [
    | raise e ↦ none
    | ok db ↦ if schema_fails db then none else some (ensure_schema pg db)
  ]
]

-- What _poll_once does with the store, for the frames that were new, in order. `insert_fails` says that
-- the statement raised an exception, which is logged.
unfoldable pub archive_new :
    (pg : Postgres) → (List ℕ → List ℕ) → (pg.Db → RawFrame → Bool) → List RawFrame → pg.Db → pg.Db
unfolding insert_frame
archive_new pg sha256_hex insert_fails [] db = db
archive_new pg sha256_hex insert_fails (frame ∷ frames) db =
    archive_new pg sha256_hex insert_fails frames
      (if insert_fails db frame then db else (insert_frame pg sha256_hex db frame).1)

-- if store is not None
abbrev pub archive_in :
    (pg : Postgres)
    → (List ℕ → List ℕ)
    → (pg.Db → RawFrame → Bool)
    → List RawFrame
    → Option pg.Db
    → Option pg.Db
archive_in pg sha256_hex insert_fails frames none = none
archive_in pg sha256_hex insert_fails frames (some db) =
    some (archive_new pg sha256_hex insert_fails frames db)

-- The service's surroundings and the rate limiter's last request.
pub record Ingest (World Db Archive : Type 0) : Type 0 where
  pub world : World
  pub last_request_at : Option ℕ
  pub db : Db
  pub archive : Option Archive

module _ (fl : FloatOps) (web : Web fl.F) (redis : Redis fl.F) (pg : Postgres)
    (sha256_hex : List ℕ → List ℕ) (ttl n : ℕ)
    (get_observations : web.World → ℕ → Result AudioResponse × web.World)
    (insert_fails : pg.Db → RawFrame → Bool) (min_interval : ℕ) (norad_ids audio_ids : List ℕ) where
  -- A round of run's loop: _poll_once and _poll_audio_once. There is no idle round.
  unfoldable pub ingest_pass :
      Ingest web.World redis.Db pg.Db → Result Bool × Ingest web.World redis.Db pg.Db
  unfolding poll poll_once archive_new poll_observations poll_audio_once
  ingest_pass s =
      let (frames, last', w') = poll fl web min_interval norad_ids s.last_request_at s.world in
      let (new, db') = poll_once redis sha256_hex ttl n frames s.db in
      let (observations, w'') = poll_observations fl web get_observations audio_ids w' in
      let (added, db'') = poll_audio_once redis ttl n observations db' in
      (
        ok true,
        record {
          world = w'';
          last_request_at = last';
          db = db'';
          archive = archive_in pg sha256_hex insert_fails new s.archive;
        },
      )

  -- What run's `finally` closes.
  abbrev pub ingest_resources : Option pg.Db → List Resource
  ingest_resources none = client ∷ audio_client ∷ []
  ingest_resources (some db) = client ∷ audio_client ∷ store ∷ []

  -- run, from the loop on
  unfoldable pub ingest_run :
      List (Round (Ingest web.World redis.Db pg.Db))
      → Ingest web.World redis.Db pg.Db
      → Service (Ingest web.World redis.Db pg.Db)
  unfolding serve ingest_pass
  ingest_run rounds s = serve ingest_pass (ingest_resources s.archive) rounds s
