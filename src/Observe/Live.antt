-- ===== src/Observe/Live.antt =====
-- leo_telemetry/observability/live.py, with its default functions.
use leo_telemetry.Base.{ℕ, ◌≡◌, refl, ◌⊎◌, inl, inr, List, [], ◌∷◌, false, none, some}
use leo_telemetry.Base.Result.{Error, Result, ok, raise, type_error, Result-cases}
use leo_telemetry.Float.{FloatOps}
use leo_telemetry.Models.{RawFrame, TelemetryReading}
use leo_telemetry.Decode.Ax25.{decode_frame}
use leo_telemetry.Demux.Demultiplex.{demultiplex}

-- export(reading, registry=...): `export` has no such parameter.
abbrev pub export_with_registry : {F : Type 0} → TelemetryReading F → Result ℕ
export_with_registry reading = raise type_error

module _ (fl : FloatOps) (calc : List ℕ → ℕ) where
  -- export_from_frames: the number of exported readings.
  unfoldable pub export_from_frames : List RawFrame → Result ℕ
  export_from_frames [] = ok 0
  export_from_frames (frame ∷ frames) =
      let rest = export_from_frames frames in
      elim (decode_frame calc (some frame) false) [
        | raise e ↦ raise e
        | ok none ↦ rest
        | ok (some decoded) ↦ elim (demultiplex fl decoded) [
          | raise e ↦ raise e
          | ok none ↦ rest
          | ok (some reading) ↦ export_with_registry reading
        ]
      ]

  -- No batch exports a reading: the answer is 0 or an exception.
  pub export_from_frames_none :
      (frames : List RawFrame)
      → (export_from_frames frames ≡ ok 0) ⊎ ((e : Error) × (export_from_frames frames ≡ raise e))
  unfolding export_from_frames
  export_from_frames_none [] = inl refl
  export_from_frames_none (frame ∷ frames) =
      let rest = export_from_frames_none frames in
      elim (Result-cases (decode_frame calc (some frame) false)) [
        | inr (e, h) ↦ inr (e, rw (export_from_frames, h))
        | inl (none, h) ↦ rw (export_from_frames, h) rest
        | inl (some d, h) ↦ elim (Result-cases (demultiplex fl d)) [
          | inr (e, i) ↦ inr (e, rw (export_from_frames, h, i))
          | inl (none, i) ↦ rw (export_from_frames, h, i) rest
          | inl (some reading, i) ↦ inr (type_error, rw (export_from_frames, h, i))
        ]
      ]
