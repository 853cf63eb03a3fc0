-- ===== src/Pipeline/Provenance.antt =====
-- Where the readings come from.
use mathlib.Core.List.{Memᴰ}
use mathlib.Core.List.Memᴰ
use leo_telemetry.Base.{ℕ, ◌≡◌, ◌⊎◌, List, ◌++◌, true, false, some, String}
use leo_telemetry.Base.Result.{Result, ok, raise, value_error, ◌>>=◌}
use leo_telemetry.Float.{FloatOps}
use leo_telemetry.Models.{RawFrame, DecodedFrame, TelemetryReading, AudioObservation}
use leo_telemetry.Redis.{Redis}
use leo_telemetry.Redis.View.{Blob, raw_frame, observation, decoded_frame, reading, failed_frame}
use leo_telemetry.Decode.FrameSync.{extract_frames}
use leo_telemetry.Decode.Ax25.{decode_frame}
use leo_telemetry.Demux.Demultiplex.{demultiplex}
use leo_telemetry.Workers.Audio.{raw_of}
use leo_telemetry.Workers.Demux.{Failure, from_exception}
use leo_telemetry.Pipeline.{Stage, raw, audio, decoded, telemetry, dead}
use leo_telemetry.Pipeline.System.{System}
use leo_telemetry.Pipeline.Closed.{Closed}

-- What came from outside: the captures and the recordings that the clients returned, and the downloads.
pub record Inputs : Type 0 where
  pub frames : List RawFrame
  pub observations : List AudioObservation
  pub downloads : List (String → Result (List ℕ))

abbrev pub extend :
    Inputs → List RawFrame → List AudioObservation → List (String → Result (List ℕ)) → Inputs
extend i fs os ds = record {
  frames = i.frames ++ fs;
  observations = i.observations ++ os;
  downloads = i.downloads ++ ds;
}

module _ (fl : FloatOps) (calc : List ℕ → ℕ) where
  -- The frame was decoded from a capture, or, with its frame check sequence, from the bits of the
  -- download of a recording.
  abbrev pub IsDecodedFrom : Inputs → DecodedFrame → Type 0
  IsDecodedFrom i d =
      ((f : RawFrame) × Memᴰ f i.frames × (decode_frame calc (some f) false ≡ ok (some d)))
      ⊎ ((o : AudioObservation) × (fetch_bits : String → Result (List ℕ)) × (frames : List (List ℕ))
          × (bytes : List ℕ) × Memᴰ o i.observations
          × Memᴰ fetch_bits i.downloads
          × ((fetch_bits o.payload_url >>= extract_frames) ≡ ok frames)
          × Memᴰ bytes frames
          × (decode_frame calc (some (raw_of o bytes)) true ≡ ok (some d)))

  -- What the object of a queue was made from.
  abbrev pub IsFrom : Inputs → Stage → Blob fl.F → Type 0
  IsFrom i raw b = (f : RawFrame) × Memᴰ f i.frames × (b ≡ raw_frame f)
  IsFrom i audio b = (o : AudioObservation) × Memᴰ o i.observations × (b ≡ observation o)
  IsFrom i decoded b = (d : DecodedFrame) × IsDecodedFrom i d × (b ≡ decoded_frame d)
  IsFrom i telemetry b =
      (r : TelemetryReading fl.F) × (d : DecodedFrame) × IsDecodedFrom i d
      × (demultiplex fl d ≡ ok (some r))
      × (b ≡ reading r)
  IsFrom i dead b =
      (d : DecodedFrame) × (exc : Failure) × IsDecodedFrom i d
      × (demultiplex fl d ≡ raise value_error)
      × (b ≡ failed_frame (from_exception d exc))
