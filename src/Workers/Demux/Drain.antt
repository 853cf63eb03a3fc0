-- ===== src/Workers/Demux/Drain.antt =====
-- A backlog of decoded frames is drained in order.
use leo_telemetry.Base.{
  ℕ, ◌≤◌, ◌<◌, ◌≡◌, refl, sym, ◌∙◌, List, [], ◌∷◌, ◌++◌, map, true, Option, none, some, inl, inr,
  length, append-nil, append_assoc, arith,
}
use leo_telemetry.Base.Result.{Error, ok, raise}
use leo_telemetry.Float.{FloatOps}
use leo_telemetry.Models.{DecodedFrame}
use leo_telemetry.Redis.{Redis}
use leo_telemetry.Redis.View.{Blob, decoded_frame, reading}
use leo_telemetry.Demux.Demultiplex.{demultiplex}
use leo_telemetry.Queues.{decoded_queue_key, telemetry_queue_key}
use leo_telemetry.Queues.Bounded.{last_n, last_n_all, length-last_n, last_n-append}
use leo_telemetry.Workers.Demux.{Failure, demux_once, demux_passes}
use leo_telemetry.Workers.Demux.Routing.{demux_once-routes}

-- What becomes of a decoded frame: at most one entry of the telemetry queue.
abbrev pub reading_of : (fl : FloatOps) → DecodedFrame → List (Blob fl.F)
reading_of fl frame = elim (demultiplex fl frame) [
  | ok (some r) ↦ reading r ∷ []
  | ok none ↦ []
  | raise e ↦ []
]

abbrev pub readings_all : (fl : FloatOps) → List DecodedFrame → List (Blob fl.F)
readings_all fl [] = []
readings_all fl (frame ∷ frames) = reading_of fl frame ++ readings_all fl frames

module _ (fl : FloatOps) (redis : Redis fl.F) (n m : ℕ) (bound_n : 0 < n) (bound_m : 0 < m) where
  open redis use {Db, contents}

  -- A pass over the head of the queue.
  demux_once-step :
      (exc : Failure) (dlq_error : Option Error) (db : Db) (frame : DecodedFrame)
      (rest : List (Blob fl.F))
      → (contents db).lists decoded_queue_key ≡ decoded_frame frame ∷ rest
      → length ((contents db).lists telemetry_queue_key) ≤ n
      → let after = demux_once fl redis n m exc dlq_error db in
        (after.0 ≡ ok true)
        × ((contents after.1).lists decoded_queue_key ≡ rest)
        × ((contents after.1).lists telemetry_queue_key
            ≡ last_n n ((contents db).lists telemetry_queue_key ++ reading_of fl frame))
  demux_once-step exc dlq_error db frame rest queued fits =
      let old = (contents db).lists telemetry_queue_key in
      let (answer, tail, route) =
        demux_once-routes fl redis n m exc dlq_error bound_n bound_m db frame rest queued in
      let same = sym (last_n_all n old fits) in
      elim route [
        | inl (r, made, sent, letters) ↦ (answer, tail, sent ∙ rw (reading_of, made) refl)
        | inr (inl (dropped, kept, letters)) ↦
            (answer, tail, kept ∙ rw (reading_of, dropped, append-nil) same)
        | inr (inr (failed, kept, letters)) ↦
            (answer, tail, kept ∙ rw (reading_of, failed, append-nil) same)
      ]

  -- As many passes as frames are queued empty the decoded queue, raise nothing, and append the readings
  -- of the frames to the telemetry queue in order, of which the bound keeps the newest.
  pub demux_passes-drain :
      (passes : List (Failure × Option Error)) (frames : List DecodedFrame) (db : Db)
      → length passes ≡ length frames
      → (contents db).lists decoded_queue_key ≡ map decoded_frame frames
      → length ((contents db).lists telemetry_queue_key) ≤ n
      → let after = demux_passes fl redis n m passes db in
        (after.0 ≡ ok true)
        × ((contents after.1).lists decoded_queue_key ≡ [])
        × ((contents after.1).lists telemetry_queue_key
            ≡ last_n n ((contents db).lists telemetry_queue_key ++ readings_all fl frames))
  unfolding demux_passes
  demux_passes-drain [] [] db same queued fits = (
    refl,
    queued,
    rw append-nil (sym (last_n_all n ((contents db).lists telemetry_queue_key) fits)),
  )
  demux_passes-drain [] (frame ∷ frames) db same queued fits = absurd (omega arith)
  demux_passes-drain (pass ∷ passes) [] db same queued fits = absurd (omega arith)
  demux_passes-drain ((exc, dlq_error) ∷ passes) (frame ∷ frames) db same queued fits =
      let (answer, tail, made) =
        demux_once-step exc dlq_error db frame (map decoded_frame frames) queued fits in
      let next = (demux_once fl redis n m exc dlq_error db).1 in
      let (rest, empty, kept) = demux_passes-drain passes frames next (omega arith) tail (
        rw made
          (length-last_n n ((contents db).lists telemetry_queue_key ++ reading_of fl frame))) in
      rw (answer, demux_passes) (rest, empty, kept ∙ rw made (rw (last_n-append, append_assoc)))
