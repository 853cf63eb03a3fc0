-- ===== src/Pipeline.antt =====
-- All services on one server: what each queue may hold, and the passes in any order.
pub mod System
pub mod Keeps
pub mod Closed
pub mod Polls
pub mod Passes
pub mod Exports
pub mod History
pub mod Provenance
pub mod Safety
pub mod EndToEnd
pub mod Backlog
use text.Mathlib.Text.{◌==◌ as str_eq}
use leo_telemetry.Base.{
  ℕ, ◌≤◌, ◌≡◌, ◌⊎◌, inl, inr, refl, List, [], ◌∷◌, Bool, true, false, Option, none, some, String,
  All, length,
}
use leo_telemetry.Base.Result.{Error, Result, ok, raise}
use leo_telemetry.Float.{FloatOps}
use leo_telemetry.Models.{
  RawFrame, DecodedFrame, TelemetryReading, AudioObservation, FailedDemuxFrame,
}
use leo_telemetry.Redis.{Redis}
use leo_telemetry.Redis.View.{
  Blob, Contents, raw_frame, observation, decoded_frame, reading, failed_frame,
}
use leo_telemetry.Queues.{
  raw_queue_key, audio_queue_key, decoded_queue_key, telemetry_queue_key, dlq_key,
}
use leo_telemetry.Workers.Ingest.{poll_once, poll_audio_once}
use leo_telemetry.Workers.Decode.{decode_once}
use leo_telemetry.Workers.Audio.{decode_audio_once}
use leo_telemetry.Workers.Demux.{Failure, demux_once}
use leo_telemetry.Workers.Latest.{hash_key}
use leo_telemetry.Exporter.{Registry}
use leo_telemetry.Observe.{export_once}

-- The queues between the services.
pub data Stage : Type 0 where
  raw audio decoded telemetry dead : Stage

abbrev pub key_of : Stage → String
key_of raw = raw_queue_key
key_of audio = audio_queue_key
key_of decoded = decoded_queue_key
key_of telemetry = telemetry_queue_key
key_of dead = dlq_key

-- No two queues share a key.
pub Stage-cases : (s t : Stage) → (s ≡ t) ⊎ (str_eq (key_of s) (key_of t) ≡ false)
Stage-cases raw raw = inl refl
Stage-cases raw audio = inr refl
Stage-cases raw decoded = inr refl
Stage-cases raw telemetry = inr refl
Stage-cases raw dead = inr refl
Stage-cases audio raw = inr refl
Stage-cases audio audio = inl refl
Stage-cases audio decoded = inr refl
Stage-cases audio telemetry = inr refl
Stage-cases audio dead = inr refl
Stage-cases decoded raw = inr refl
Stage-cases decoded audio = inr refl
Stage-cases decoded decoded = inl refl
Stage-cases decoded telemetry = inr refl
Stage-cases decoded dead = inr refl
Stage-cases telemetry raw = inr refl
Stage-cases telemetry audio = inr refl
Stage-cases telemetry decoded = inr refl
Stage-cases telemetry telemetry = inl refl
Stage-cases telemetry dead = inr refl
Stage-cases dead raw = inr refl
Stage-cases dead audio = inr refl
Stage-cases dead decoded = inr refl
Stage-cases dead telemetry = inr refl
Stage-cases dead dead = inl refl

-- The class of the objects that a queue is for.
abbrev pub IsOf : {F : Type 0} → Stage → Blob F → Type 0
IsOf raw b = (f : RawFrame) × (b ≡ raw_frame f)
IsOf audio b = (o : AudioObservation) × (b ≡ observation o)
IsOf decoded b = (f : DecodedFrame) × (b ≡ decoded_frame f)
IsOf {F} telemetry b = (r : TelemetryReading F) × (b ≡ reading r)
IsOf dead b = (f : FailedDemuxFrame) × (b ≡ failed_frame f)

-- Every queue holds only objects that `P` allows in it, up to its bound, and so does the hash of the
-- latest readings.
pub record Holds {F : Type 0} (P : Stage → Blob F → Type 0) (limit : Stage → ℕ) (c : Contents F)
    : Type 0 where
  pub typed : (s : Stage) → All (P s) (c.lists (key_of s))
  pub bounded : (s : Stage) → length (c.lists (key_of s)) ≤ limit s
  pub latest : All (λ e. P telemetry e.1) (c.hashes hash_key)

-- Every queue holds objects of its class only, up to its bound, and so does the hash of the latest readings.
abbrev pub WellFormed : {F : Type 0} → (Stage → ℕ) → Contents F → Type 0
WellFormed limit c = Holds IsOf limit c
