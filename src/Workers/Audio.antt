-- ===== src/Workers/Audio.antt =====
-- leo_telemetry/decode/audio_run.py
pub mod EndToEnd
use leo_telemetry.Base.{ℕ, List, [], ◌∷◌, Bool, true, false, Option, none, some, String}
use leo_telemetry.Base.Int.{pos}
use leo_telemetry.Base.Result.{Result, ok, raise, ◌>>=◌}
use leo_telemetry.Models.{RawFrame, AudioObservation}
use leo_telemetry.Redis.{Redis}
use leo_telemetry.Decode.FrameSync.{extract_frames}
use leo_telemetry.Decode.Ax25.{decode_frame}
use leo_telemetry.Queues.{pop_audio, push_decoded}

-- The frame of an observation's recording.
abbrev pub raw_of : AudioObservation → List ℕ → RawFrame
raw_of o frame_bytes = record {
  norad_id = o.norad_id;
  observation_id = pos o.observation_id;
  observer_station_id = pos o.station_id;
  received_at = o.observed_at;
  raw_bytes = frame_bytes;
}

-- `fetch_bits url` is what the HTTP client, the Vorbis reader and the demodulator make of a recording:
-- the demodulated bits, or the exception that one of them raised.
module _ {F : Type 0} (redis : Redis F) (calc : List ℕ → ℕ) (fetch_bits : String → Result (List ℕ))
    (n : ℕ) where
  open redis use {Db}

  unfoldable pub push_frames : AudioObservation → List (List ℕ) → Db → Db
  push_frames o [] db = db
  push_frames o (frame_bytes ∷ frames) db =
      elim (decode_frame calc (some (raw_of o frame_bytes)) true) [
        | raise e ↦ push_frames o frames db
        | ok none ↦ push_frames o frames db
        | ok (some decoded) ↦ push_frames o frames (push_decoded redis n db decoded)
      ]

  -- _decode_audio_once
  unfoldable pub decode_audio_once : Db → Result Bool × Db
  unfolding pop_audio
  decode_audio_once db =
      let (popped, db') = pop_audio redis db in
      elim popped [
        | raise e ↦ (raise e, db')
        | ok none ↦ (ok false, db')
        | ok (some observation) ↦ elim (fetch_bits observation.payload_url >>= extract_frames) [
          | raise e ↦ (ok true, db')
          | ok frames ↦ (ok true, push_frames observation frames db')
        ]
      ]
