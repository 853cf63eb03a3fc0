-- ===== src/Queues.antt =====
-- The queues between the stages, over Redis.
-- leo_telemetry/ingest/redis_dedup.py, ingest/redis_audio_queue.py, decode/redis_decoded_queue.py,
-- demux/redis_telemetry_queue.py, demux/dlq.py. A pickle of another class under a queue's key, which
-- no code of the program stores there, is a TypeError of the model.
pub mod Bounded
pub mod Dedup
pub mod Refine
use leo_telemetry.Base.{
  ℕ, ◌+◌, ◌*◌, List, [], ◌∷◌, Bool, true, false, Option, none, some, String, if◌then◌else◌,
}
use leo_telemetry.Base.Int.{ℤ, pos, neg}
use leo_telemetry.Base.Result.{Result, ok, raise, type_error, traverse}
use leo_telemetry.Models.{
  RawFrame, DecodedFrame, TelemetryReading, AudioObservation, FailedDemuxFrame, dedup_key,
  audio_dedup_key,
}
use leo_telemetry.Redis.{Redis}
use leo_telemetry.Redis.View.{
  Blob, raw_frame, observation, decoded_frame, reading, no_reading, failed_frame,
}

abbrev pub raw_seen_key : String
raw_seen_key = "leo_telemetry:ingest:seen"

abbrev pub raw_queue_key : String
raw_queue_key = "leo_telemetry:ingest:queue"

abbrev pub audio_seen_key : String
audio_seen_key = "leo_telemetry:ingest:audio:seen"

abbrev pub audio_queue_key : String
audio_queue_key = "leo_telemetry:ingest:audio:queue"

abbrev pub decoded_queue_key : String
decoded_queue_key = "leo_telemetry:decode:queue"

abbrev pub telemetry_queue_key : String
telemetry_queue_key = "leo_telemetry:telemetry:queue"

abbrev pub dlq_key : String
dlq_key = "leo_telemetry:demux:dlq"

-- pickle.loads for each class, and the JSON reader of the dead letters.
module _ {F : Type 0} where
  abbrev pub load_raw : Blob F → Result RawFrame
  load_raw (raw_frame f) = ok f
  load_raw _ = raise type_error

  abbrev pub load_observation : Blob F → Result AudioObservation
  load_observation (observation o) = ok o
  load_observation _ = raise type_error

  abbrev pub load_decoded : Blob F → Result DecodedFrame
  load_decoded (decoded_frame f) = ok f
  load_decoded _ = raise type_error

  abbrev pub load_reading : Blob F → Result (Option (TelemetryReading F))
  load_reading (reading r) = ok (some r)
  load_reading no_reading = ok none
  load_reading _ = raise type_error

  abbrev pub load_failed : Blob F → Result FailedDemuxFrame
  load_failed (failed_frame f) = ok f
  load_failed _ = raise type_error

-- What a pop returns: nothing on an empty queue, and else the object that was stored.
abbrev pub popped : {F A : Type 0} → (Blob F → Result A) → Option (Blob F) → Result (Option A)
popped load none = ok none
popped load (some b) = elim (load b) [ ok a ↦ ok (some a) | raise e ↦ raise e ]

module _ {F : Type 0} (redis : Redis F) where
  open redis use {Db, rpush_cmd, ltrim_cmd, lpop_cmd, llen_cmd, lrange_cmd, sadd_cmd, expire_nx_cmd}

  -- rpush and ltrim(key, -max_queue_size, -1): what every queue's push does to its list.
  unfoldable pub push_bounded : String → ℕ → Db → Blob F → Db
  push_bounded key max_queue_size db b =
      ltrim_cmd (rpush_cmd db key b) key (neg (pos max_queue_size))

  -- The push of a deduplicating queue.
  unfoldable pub push_once : String → String → ℕ → ℕ → Db → List ℕ → Blob F → Bool × Db
  push_once seen_key queue_key seen_ttl_seconds max_queue_size db member b =
      let (added, db') = sadd_cmd db seen_key member in
      if added
      then (
        true,
        push_bounded queue_key max_queue_size (expire_nx_cmd db' seen_key seen_ttl_seconds) b,
      )
      else (false, db')

  -- RedisDedupQueue
  unfoldable pub push_raw : (List ℕ → List ℕ) → ℕ → ℕ → Db → RawFrame → Bool × Db
  push_raw sha256_hex seen_ttl_seconds max_queue_size db frame =
      push_once raw_seen_key raw_queue_key seen_ttl_seconds max_queue_size db
        (dedup_key sha256_hex frame) (raw_frame frame)

  unfoldable pub pop_raw : Db → Result (Option RawFrame) × Db
  pop_raw db = let (b, db') = lpop_cmd db raw_queue_key in (popped load_raw b, db')

  -- peek_all; `lrange(key, 0, -1)` is the whole list.
  unfoldable pub peek_all : Db → Result (List RawFrame)
  peek_all db = traverse load_raw (lrange_cmd db raw_queue_key (pos 0))

  -- RedisAudioQueue
  unfoldable pub push_audio : ℕ → ℕ → Db → AudioObservation → Bool × Db
  push_audio seen_ttl_seconds max_queue_size db o =
      push_once audio_seen_key audio_queue_key seen_ttl_seconds max_queue_size db
        (audio_dedup_key o) (observation o)

  unfoldable pub pop_audio : Db → Result (Option AudioObservation) × Db
  pop_audio db = let (b, db') = lpop_cmd db audio_queue_key in (popped load_observation b, db')

  -- RedisDecodedQueue
  unfoldable pub push_decoded : ℕ → Db → DecodedFrame → Db
  push_decoded max_queue_size db frame =
      push_bounded decoded_queue_key max_queue_size db (decoded_frame frame)

  unfoldable pub pop_decoded : Db → Result (Option DecodedFrame) × Db
  pop_decoded db = let (b, db') = lpop_cmd db decoded_queue_key in (popped load_decoded b, db')

  -- RedisTelemetryQueue
  abbrev pub pickle_reading : Option (TelemetryReading F) → Blob F
  pickle_reading none = no_reading
  pickle_reading (some r) = reading r

  unfoldable pub push_reading : ℕ → Db → Option (TelemetryReading F) → Db
  push_reading max_queue_size db r =
      push_bounded telemetry_queue_key max_queue_size db (pickle_reading r)

  -- A pickled None is returned as None, like an empty queue.
  abbrev pub joined {ℓ} : {A : Type ℓ} → Result (Option (Option A)) → Result (Option A)
  joined (ok (some o)) = ok o
  joined (ok none) = ok none
  joined (raise e) = raise e

  unfoldable pub pop_reading : Db → Result (Option (TelemetryReading F)) × Db
  pop_reading db =
      let (b, db') = lpop_cmd db telemetry_queue_key in (joined (popped load_reading b), db')

  -- DemuxDeadLetterQueue
  unfoldable pub push_failed : ℕ → Db → FailedDemuxFrame → Db
  push_failed max_size db failed = push_bounded dlq_key max_size db (failed_frame failed)

  unfoldable pub get_recent : ℕ → Db → Result (List FailedDemuxFrame)
  get_recent count db = traverse load_failed (lrange_cmd db dlq_key (neg (pos count)))

  -- qsize of each queue
  unfoldable pub qsize : String → Db → ℕ
  qsize key db = llen_cmd db key
