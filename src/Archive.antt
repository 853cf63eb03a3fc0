-- ===== src/Archive.antt =====
-- leo_telemetry/common/storage.py and leo_telemetry/ingest/backfill.py: the archive of raw frames. The
-- Postgres server is a third-party service: its statements are a parameter, with their documented
-- behaviour on the rows of the table, listed by their ids.
pub mod Table
pub mod Paging
pub mod Backfill
use leo_telemetry.Base.{
  ℕ, ◌+◌, ◌<◌, ◌≡◌, List, [], ◌∷◌, ◌++◌, map, Bool, true, false, ltb, if◌then◌else◌, any, take, All,
  ◌=l=◌, Option, none, some,
}
use leo_telemetry.Base.Int.{ℤ}
use leo_telemetry.Base.Result.{Result, ok, raise, system_exit}
use leo_telemetry.Timestamps.{Timestamp}
use leo_telemetry.Models.{RawFrame, dedup_key}
use leo_telemetry.Redis.{Redis}
use leo_telemetry.Queues.{peek_all}

-- A row of raw_frames; `inserted_at` is never read.
pub record Row : Type 0 where
  pub id : ℕ
  pub norad_id : ℕ
  pub observation_id : ℤ
  pub observer_station_id : ℤ
  pub received_at : Timestamp
  pub raw_bytes : List ℕ
  pub row_key : List ℕ

-- What _insert_params hands to the statement.
pub record Params : Type 0 where
  pub norad_id : ℕ
  pub observation_id : ℤ
  pub observer_station_id : ℤ
  pub received_at : Timestamp
  pub raw_bytes : List ℕ
  pub frame_key : List ℕ

-- The column is a timestamptz: what it gives back is aware.
abbrev pub as_aware : Timestamp → Timestamp
as_aware t = record { is_aware = true; instant = t.instant }

abbrev pub row_of : ℕ → Params → Row
row_of n p = record {
  id = n;
  norad_id = p.norad_id;
  observation_id = p.observation_id;
  observer_station_id = p.observer_station_id;
  received_at = as_aware p.received_at;
  raw_bytes = p.raw_bytes;
  row_key = p.frame_key;
}

abbrev pub has_key : List ℕ → List Row → Bool
has_key k = any (λ r. r.row_key =l= k)

-- The rows whose id is above `after_id`.
abbrev pub above : ℕ → List Row → List Row
above after_id [] = []
above after_id (r ∷ rows) =
    if ltb after_id r.id then r ∷ above after_id rows else above after_id rows

pub record Postgres : Type 1 where
  pub Db : Type 0
  pub rows : Db → List Row
  pub schema_cmd : Db → Db
  pub insert_cmd : Db → Params → ℕ × Db
  pub select_cmd : Db → ℕ → ℕ → List Row
  -- CREATE ... IF NOT EXISTS leaves a table that exists as it is.
  pub schema_law : (db : Db) → rows (schema_cmd db) ≡ rows db
  -- ON CONFLICT (dedup_key) DO NOTHING: a key that is present is no insertion.
  pub conflict_law :
      (db : Db) (p : Params)
      → has_key p.frame_key (rows db) ≡ true
      → ((insert_cmd db p).0 ≡ 0) × (rows (insert_cmd db p).1 ≡ rows db)
  -- A key that is not present makes a row, whose BIGSERIAL id is new and above all the others.
  pub insert_law :
      (db : Db) (p : Params)
      → has_key p.frame_key (rows db) ≡ false
      → ((insert_cmd db p).0 ≡ 1)
        × ((n : ℕ) × (0 < n)
            × All (λ r. r.id < n) (rows db)
            × (rows (insert_cmd db p).1 ≡ rows db ++ row_of n p ∷ []))
  -- WHERE id > after_id ORDER BY id ASC LIMIT n
  pub select_law :
      (db : Db) (after_id n : ℕ) → select_cmd db after_id n ≡ take n (above after_id (rows db))

pub record StoredFrame : Type 0 where
  pub id : ℕ
  pub frame : RawFrame

-- _insert_params
abbrev pub insert_params : (List ℕ → List ℕ) → RawFrame → Params
insert_params sha256_hex frame = record {
  norad_id = frame.norad_id;
  observation_id = frame.observation_id;
  observer_station_id = frame.observer_station_id;
  received_at = frame.received_at;
  raw_bytes = frame.raw_bytes;
  frame_key = dedup_key sha256_hex frame;
}

-- _row_to_raw_frame
abbrev pub row_to_raw_frame : Row → RawFrame
row_to_raw_frame r = record {
  norad_id = r.norad_id;
  observation_id = r.observation_id;
  observer_station_id = r.observer_station_id;
  received_at = r.received_at;
  raw_bytes = r.raw_bytes;
}

abbrev pub stored : Row → StoredFrame
stored r = record { id = r.id; frame = row_to_raw_frame r }

module _ (pg : Postgres) where
  open pg use {Db, schema_cmd, insert_cmd, select_cmd}

  -- RawFrameStore
  unfoldable pub ensure_schema : Db → Db
  ensure_schema db = schema_cmd db

  unfoldable pub insert_frame : (List ℕ → List ℕ) → Db → RawFrame → Bool × Db
  insert_frame sha256_hex db frame =
      let (rowcount, db') = insert_cmd db (insert_params sha256_hex frame) in (ltb 0 rowcount, db')

  unfoldable pub fetch_since : Db → ℕ → ℕ → List StoredFrame
  fetch_since db after_id n = map stored (select_cmd db after_id n)

  -- The loop of `backfill`: the number of frames that were inserted.
  unfoldable pub insert_all : (List ℕ → List ℕ) → List RawFrame → Db → ℕ × Db
  insert_all sha256_hex [] db = (0, db)
  insert_all sha256_hex (frame ∷ frames) db =
      let (is_new, db') = insert_frame sha256_hex db frame in
      let (inserted, db'') = insert_all sha256_hex frames db' in
      (if is_new then 1 + inserted else inserted, db'')

  -- backfill, over a server that can be reached; `dsn` is what the environment says of the server, nothing where POSTGRES_HOST is not set.
  unfoldable pub backfill :
      {F : Type 0} (redis : Redis F)
      → (List ℕ → List ℕ)
      → Option (List ℕ)
      → redis.Db
      → Db
      → Result ℕ × Db
  backfill redis sha256_hex none q db = (raise system_exit, db)
  backfill redis sha256_hex (some dsn) q db = elim (peek_all redis q) [
    | raise e ↦ (raise e, ensure_schema db)
    | ok frames ↦
        let (inserted, db') = insert_all sha256_hex frames (ensure_schema db) in (ok inserted, db')
  ]
