-- ===== src/Pipeline/Passes.antt =====
-- Each pass of a worker keeps what the queues may hold, and raises nothing on objects of their classes.
use mathlib.Core.List.{Memᴰ}
use leo_telemetry.Base.{
  ℕ, ◌<◌, ◌≡◌, refl, ap, ◌∙◌, inl, inr, List, [], ◌∷◌, true, false, Option, none, some, String,
  Option-cases,
}
use leo_telemetry.Base.Result.{Error, Result, ok, raise, ◌>>=◌, Result-cases}
use leo_telemetry.Float.{FloatOps}
use leo_telemetry.Models.{AudioObservation}
use leo_telemetry.Redis.{Redis}
use leo_telemetry.Redis.View.{Blob, raw_frame, observation, decoded_frame, reading, failed_frame}
use leo_telemetry.Decode.FrameSync.{extract_frames}
use leo_telemetry.Decode.Ax25.{decode_frame}
use leo_telemetry.Demux.Demultiplex.{demultiplex}
use leo_telemetry.Demux.Demultiplex.Outcomes.{demultiplex-OnlyValueError}
use leo_telemetry.Queues.{
  raw_queue_key, audio_queue_key, decoded_queue_key, pop_raw, pop_audio, push_decoded, pop_decoded,
  push_reading, push_failed,
}
use leo_telemetry.Workers.Decode.{decode_once}
use leo_telemetry.Workers.Audio.{raw_of, push_frames, decode_audio_once}
use leo_telemetry.Workers.Demux.{Failure, from_exception, demux_once}
use leo_telemetry.Pipeline.{Stage, raw, audio, decoded, telemetry, dead, Holds}
use leo_telemetry.Pipeline.Keeps.{push_bounded-Holds, lpop-Holds}
use leo_telemetry.Pipeline.Closed.{Closed, Passes}

module _ (fl : FloatOps) (redis : Redis fl.F) (P : Stage → Blob fl.F → Type 0)
    (Fetches : (String → Result (List ℕ)) → Type 0) (limit : Stage → ℕ)
    (positive : (s : Stage) → 0 < limit s) where
  open redis use {Db, contents, lpop_cmd, hset_cmd, hget_law}

  pub decode_once-Passes :
      (calc : List ℕ → ℕ) (db : Db)
      → Closed fl calc P Fetches
      → Holds P limit (contents db)
      → Passes redis P limit (decode_once redis calc (limit decoded) db)
  unfolding decode_once pop_raw push_decoded
  decode_once-Passes calc db closed h =
      let (kept, head) = lpop-Holds redis P limit positive raw db h in
      let db' = (lpop_cmd db raw_queue_key).1 in
      elim head [
        | inl empty ↦ rw (empty, decode_once) ((false, refl), kept)
        | inr (b, popped, allowed) ↦
            let (frame, is) = closed.classed raw b allowed in
            let first : (lpop_cmd db raw_queue_key).0 ≡ some (raw_frame frame) =
              popped ∙ ap some is in
            elim (Result-cases (decode_frame calc (some frame) false)) [
              | inr (e, raised) ↦ rw (first, decode_once, raised) ((true, refl), kept)
              | inl (none, nothing) ↦ rw (first, decode_once, nothing) ((true, refl), kept)
              | inl (some result, made) ↦
                  rw (first, decode_once, made)
                    (
                      (true, refl),
                      push_bounded-Holds redis P limit positive decoded db' (decoded_frame result)
                          kept (closed.decodes frame result (rw (← is) allowed) made),
                    )
            ]
      ]

  push_frames-Holds :
      (calc : List ℕ → ℕ) (fetch_bits : String → Result (List ℕ)) (o : AudioObservation)
      (all frames : List (List ℕ)) (db : Db)
      → Closed fl calc P Fetches
      → P audio (observation o)
      → Fetches fetch_bits
      → (fetch_bits o.payload_url >>= extract_frames) ≡ ok all
      → ((bytes : List ℕ) → Memᴰ bytes frames → Memᴰ bytes all)
      → Holds P limit (contents db)
      → Holds P limit (contents (push_frames redis calc fetch_bits (limit decoded) o frames db))
  unfolding push_frames push_decoded
  push_frames-Holds calc fetch_bits o all [] db closed allowed fetches found among h = h
  push_frames-Holds calc fetch_bits o all (frame_bytes ∷ frames) db closed allowed fetches found
        among h =
      let rest : (db' : Db)
          → Holds P limit (contents db')
          → Holds P limit
              (contents (push_frames redis calc fetch_bits (limit decoded) o frames db')) =
        λ db' h'.
          push_frames-Holds calc fetch_bits o all frames db' closed allowed fetches found
            (λ bytes m. among bytes (Memᴰ.tail m)) h' in
      elim (Result-cases (decode_frame calc (some (raw_of o frame_bytes)) true)) [
        | inr (e, raised) ↦ rw (raised, push_frames) (rest db h)
        | inl (none, nothing) ↦ rw (nothing, push_frames) (rest db h)
        | inl (some result, made) ↦
            rw (made, push_frames)
              (rest (push_decoded redis (limit decoded) db result) (
                push_bounded-Holds redis P limit positive decoded db (decoded_frame result) h (
                  closed.hears fetch_bits o all frame_bytes result fetches allowed found
                    (among frame_bytes (Memᴰ.head refl)) made)))
      ]

  pub decode_audio_once-Passes :
      (calc : List ℕ → ℕ) (fetch_bits : String → Result (List ℕ)) (db : Db)
      → Closed fl calc P Fetches
      → Fetches fetch_bits
      → Holds P limit (contents db)
      → Passes redis P limit (decode_audio_once redis calc fetch_bits (limit decoded) db)
  unfolding decode_audio_once pop_audio
  decode_audio_once-Passes calc fetch_bits db closed fetches h =
      let (kept, head) = lpop-Holds redis P limit positive audio db h in
      let db' = (lpop_cmd db audio_queue_key).1 in
      elim head [
        | inl empty ↦ rw (empty, decode_audio_once) ((false, refl), kept)
        | inr (b, popped, allowed) ↦
            let (o, is) = closed.classed audio b allowed in
            let first : (lpop_cmd db audio_queue_key).0 ≡ some (observation o) =
              popped ∙ ap some is in
            elim (Result-cases (fetch_bits o.payload_url >>= extract_frames)) [
              | inr (e, raised) ↦ rw (first, decode_audio_once, raised) ((true, refl), kept)
              | inl (frames, found) ↦
                  rw (first, decode_audio_once, found)
                    (
                      (true, refl),
                      push_frames-Holds calc fetch_bits o frames frames db' closed
                          (rw (← is) allowed) fetches found (λ bytes m. m) kept,
                    )
            ]
      ]

  pub demux_once-Passes :
      (calc : List ℕ → ℕ) (exc : Failure) (dlq_error : Option Error) (db : Db)
      → Closed fl calc P Fetches
      → Holds P limit (contents db)
      → Passes redis P limit (demux_once fl redis (limit telemetry) (limit dead) exc dlq_error db)
  unfolding demux_once pop_decoded push_reading push_failed
  demux_once-Passes calc exc dlq_error db closed h =
      let (kept, head) = lpop-Holds redis P limit positive decoded db h in
      let db' = (lpop_cmd db decoded_queue_key).1 in
      elim head [
        | inl empty ↦ rw (empty, demux_once) ((false, refl), kept)
        | inr (b, popped, allowed) ↦
            let (frame, is) = closed.classed decoded b allowed in
            let was : P decoded (decoded_frame frame) = rw (← is) allowed in
            let first : (lpop_cmd db decoded_queue_key).0 ≡ some (decoded_frame frame) =
              popped ∙ ap some is in
            elim (Result-cases (demultiplex fl frame)) [
              | inl (some r, made) ↦
                  rw (first, demux_once, made)
                    (
                      (true, refl),
                      push_bounded-Holds redis P limit positive telemetry db' (reading r) kept
                          (closed.demuxes frame r was made),
                    )
              | inl (none, dropped) ↦ rw (first, demux_once, dropped) ((true, refl), kept)
              | inr (e, raised) ↦
                  let failed =
                    raised ∙ ap (λ x. raise x) (demultiplex-OnlyValueError fl frame e raised) in
                  elim (Option-cases dlq_error) [
                    | inr (swallowed, broken) ↦
                        rw (first, demux_once, failed, broken) ((true, refl), kept)
                    | inl works ↦
                        rw (first, demux_once, failed, works)
                          (
                            (true, refl),
                            push_bounded-Holds redis P limit positive dead db'
                                (failed_frame (from_exception frame exc)) kept
                                (closed.fails frame exc was failed),
                          )
                  ]
            ]
      ]
