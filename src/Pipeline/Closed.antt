-- ===== src/Pipeline/Closed.antt =====
-- What the services make of the objects that the queues may hold.
use mathlib.Core.List.{Memᴰ}
use leo_telemetry.Base.{ℕ, ◌≡◌, List, Bool, true, false, some, String}
use leo_telemetry.Base.Result.{value_error, Result, ok, raise, ◌>>=◌}
use leo_telemetry.Float.{FloatOps}
use leo_telemetry.Models.{RawFrame, DecodedFrame, TelemetryReading, AudioObservation}
use leo_telemetry.Redis.{Redis}
use leo_telemetry.Redis.View.{Blob, raw_frame, observation, decoded_frame, reading, failed_frame}
use leo_telemetry.Decode.FrameSync.{extract_frames}
use leo_telemetry.Decode.Ax25.{decode_frame}
use leo_telemetry.Demux.Demultiplex.{demultiplex}
use leo_telemetry.Workers.Audio.{raw_of}
use leo_telemetry.Workers.Demux.{Failure, from_exception}
use leo_telemetry.Pipeline.{Stage, raw, audio, decoded, telemetry, dead, IsOf, Holds}

-- What the decoders and the demultiplexer make of an object that `P` allows, `P` allows too.
pub record Closed (fl : FloatOps) (calc : List ℕ → ℕ) (P : Stage → Blob fl.F → Type 0)
    (Fetches : (String → Result (List ℕ)) → Type 0) : Type 0 where
  pub classed : (s : Stage) (b : Blob fl.F) → P s b → IsOf s b
  pub decodes :
      (f : RawFrame) (d : DecodedFrame)
      → P raw (raw_frame f)
      → decode_frame calc (some f) false ≡ ok (some d)
      → P decoded (decoded_frame d)
  pub hears :
      (fetch_bits : String → Result (List ℕ)) (o : AudioObservation) (frames : List (List ℕ))
      (bytes : List ℕ) (d : DecodedFrame)
      → Fetches fetch_bits
      → P audio (observation o)
      → (fetch_bits o.payload_url >>= extract_frames) ≡ ok frames
      → Memᴰ bytes frames
      → decode_frame calc (some (raw_of o bytes)) true ≡ ok (some d)
      → P decoded (decoded_frame d)
  pub demuxes :
      (d : DecodedFrame) (r : TelemetryReading fl.F)
      → P decoded (decoded_frame d)
      → demultiplex fl d ≡ ok (some r)
      → P telemetry (reading r)
  pub fails :
      (d : DecodedFrame) (exc : Failure)
      → P decoded (decoded_frame d)
      → demultiplex fl d ≡ raise value_error
      → P dead (failed_frame (from_exception d exc))

-- An answer, not an exception, and queues as before after it.
abbrev pub Passes :
    {F : Type 0} (redis : Redis F)
    → (Stage → Blob F → Type 0)
    → (Stage → ℕ)
    → Result Bool × redis.Db
    → Type 0
Passes redis P limit p = ((b : Bool) × (p.0 ≡ ok b)) × Holds P limit (redis.contents p.1)
