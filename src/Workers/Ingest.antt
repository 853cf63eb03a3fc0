-- ===== src/Workers/Ingest.antt =====
-- leo_telemetry/ingest/run.py: one poll of SatNOGS, for frames and for recordings. The clients are
-- parameters: what a poll returns, or the exception it raises.
pub mod Overlap
pub mod Covers
use leo_telemetry.Base.{ℕ, ◌+◌, List, [], ◌∷◌, true, false}
use leo_telemetry.Base.Result.{Result, ok, raise}
use leo_telemetry.Models.{RawFrame, AudioObservation}
use leo_telemetry.Redis.{Redis}
use leo_telemetry.Queues.{push_raw, push_audio}

module _ {F : Type 0} (redis : Redis F) (sha256_hex : List ℕ → List ℕ) (ttl n : ℕ) where
  open redis use {Db}

  -- The loop of _poll_once: the frames that were new are handed to the archive, in order.
  unfoldable pub push_new : List RawFrame → Db → List RawFrame × Db
  push_new [] db = ([], db)
  push_new (frame ∷ frames) db =
      let (is_new, db') = push_raw redis sha256_hex ttl n db frame in
      let (added, db'') = push_new frames db' in
      elim is_new [ true ↦ (frame ∷ added, db'') | false ↦ (added, db'') ]

  -- _poll_once; the first part of the answer is what is inserted into the archive.
  unfoldable pub poll_once : Result (List RawFrame) → Db → List RawFrame × Db
  poll_once (raise e) db = ([], db)
  poll_once (ok frames) db = push_new frames db

module _ {F : Type 0} (redis : Redis F) (ttl n : ℕ) where
  open redis use {Db}

  -- The loop of _poll_audio_once.
  unfoldable pub push_new_audio : List AudioObservation → Db → ℕ × Db
  push_new_audio [] db = (0, db)
  push_new_audio (o ∷ os) db =
      let (is_new, db') = push_audio redis ttl n db o in
      let (added, db'') = push_new_audio os db' in
      elim is_new [ true ↦ (1 + added, db'') | false ↦ (added, db'') ]

  -- _poll_audio_once; the first part of the answer is the number of new observations.
  unfoldable pub poll_audio_once : Result (List AudioObservation) → Db → ℕ × Db
  poll_audio_once (raise e) db = (0, db)
  poll_audio_once (ok os) db = push_new_audio os db
