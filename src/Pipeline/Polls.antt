-- ===== src/Pipeline/Polls.antt =====
-- Each poll of the ingest worker keeps what the queues may hold.
use leo_telemetry.Base.{All, ℕ, ◌<◌, inl, inr, List, [], ◌∷◌, Bool-cases}
use leo_telemetry.Base.Result.{Result, ok, raise}
use leo_telemetry.Float.{FloatOps}
use leo_telemetry.Models.{RawFrame, AudioObservation, dedup_key, audio_dedup_key}
use leo_telemetry.Redis.{Redis}
use leo_telemetry.Redis.View.{Blob, raw_frame, observation}
use leo_telemetry.Queues.{raw_seen_key, audio_seen_key, push_raw, push_audio}
use leo_telemetry.Workers.Ingest.{push_new, push_new_audio, poll_once, poll_audio_once}
use leo_telemetry.Pipeline.{Stage, raw, audio, Holds}
use leo_telemetry.Pipeline.Keeps.{push_once-Holds}

-- The captures that an answer brings.
abbrev pub answered : {A : Type 0} → Result (List A) → List A
answered (ok xs) = xs
answered (raise e) = []

module _ (fl : FloatOps) (redis : Redis fl.F) (P : Stage → Blob fl.F → Type 0) (limit : Stage → ℕ)
    (positive : (s : Stage) → 0 < limit s) where
  open redis use {Db, contents, lpop_cmd, hset_cmd, hget_law}

  push_new-Holds :
      (sha256_hex : List ℕ → List ℕ) (ttl : ℕ) (frames : List RawFrame) (db : Db)
      → All (λ f. P raw (raw_frame f)) frames
      → Holds P limit (contents db)
      → Holds P limit (contents (push_new redis sha256_hex ttl (limit raw) frames db).1)
  unfolding push_new push_raw
  push_new-Holds sha256_hex ttl [] db allowed h = h
  push_new-Holds sha256_hex ttl (frame ∷ frames) db allowed h =
      let db' = (push_raw redis sha256_hex ttl (limit raw) db frame).1 in
      let kept =
        push_once-Holds redis P limit positive raw raw_seen_key ttl db (dedup_key sha256_hex frame)
          (raw_frame frame) h allowed.0 in
      let rest = push_new-Holds sha256_hex ttl frames db' allowed.1 kept in
      elim (Bool-cases (push_raw redis sha256_hex ttl (limit raw) db frame).0) [
        | inl new ↦ rw (new, push_new) rest
        | inr old ↦ rw (old, push_new) rest
      ]

  push_new_audio-Holds :
      (ttl : ℕ) (os : List AudioObservation) (db : Db)
      → All (λ o. P audio (observation o)) os
      → Holds P limit (contents db)
      → Holds P limit (contents (push_new_audio redis ttl (limit audio) os db).1)
  unfolding push_new_audio push_audio
  push_new_audio-Holds ttl [] db allowed h = h
  push_new_audio-Holds ttl (o ∷ os) db allowed h =
      let db' = (push_audio redis ttl (limit audio) db o).1 in
      let kept =
        push_once-Holds redis P limit positive audio audio_seen_key ttl db (audio_dedup_key o)
          (observation o) h allowed.0 in
      let rest = push_new_audio-Holds ttl os db' allowed.1 kept in
      elim (Bool-cases (push_audio redis ttl (limit audio) db o).0) [
        | inl new ↦ rw (new, push_new_audio) rest
        | inr old ↦ rw (old, push_new_audio) rest
      ]

  pub poll_once-Holds :
      (sha256_hex : List ℕ → List ℕ) (ttl : ℕ) (answer : Result (List RawFrame)) (db : Db)
      → All (λ f. P raw (raw_frame f)) (answered answer)
      → Holds P limit (contents db)
      → Holds P limit (contents (poll_once redis sha256_hex ttl (limit raw) answer db).1)
  unfolding poll_once
  poll_once-Holds sha256_hex ttl (raise e) db allowed h = h
  poll_once-Holds sha256_hex ttl (ok frames) db allowed h =
      push_new-Holds sha256_hex ttl frames db allowed h

  pub poll_audio_once-Holds :
      (ttl : ℕ) (answer : Result (List AudioObservation)) (db : Db)
      → All (λ o. P audio (observation o)) (answered answer)
      → Holds P limit (contents db)
      → Holds P limit (contents (poll_audio_once redis ttl (limit audio) answer db).1)
  unfolding poll_audio_once
  poll_audio_once-Holds ttl (raise e) db allowed h = h
  poll_audio_once-Holds ttl (ok os) db allowed h = push_new_audio-Holds ttl os db allowed h
