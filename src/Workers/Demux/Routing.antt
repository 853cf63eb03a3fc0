-- ===== src/Workers/Demux/Routing.antt =====
-- Where a decoded frame goes: to the telemetry queue, to the dead letters, or nowhere.
use leo_telemetry.Base.{
  ℕ, ◌<◌, ◌≡◌, refl, ap, ◌∙◌, List, [], ◌∷◌, ◌++◌, true, Option, none, some, inl, inr, ◌⊎◌,
  Option-cases,
}
use leo_telemetry.Base.Result.{Error, ok, raise, value_error, Result-cases}
use leo_telemetry.Float.{FloatOps}
use leo_telemetry.Models.{DecodedFrame, TelemetryReading}
use leo_telemetry.Redis.{Redis}
use leo_telemetry.Redis.View.{Blob, decoded_frame, reading, failed_frame}
use leo_telemetry.Demux.Demultiplex.{demultiplex}
use leo_telemetry.Demux.Demultiplex.Outcomes.{demultiplex-OnlyValueError}
use leo_telemetry.Queues.{
  decoded_queue_key, telemetry_queue_key, dlq_key, pop_decoded, push_reading, push_failed,
}
use leo_telemetry.Queues.Bounded.{last_n, lists-push_bounded}
use leo_telemetry.Workers.Demux.{Failure, from_exception, demux_once}

module _ (fl : FloatOps) (redis : Redis fl.F) (n m : ℕ) (exc : Failure)
    (dlq_error : Option Error) where
  open redis use {Db, contents, lpop_cmd, lpop_result, lpop_law}

  -- The dead letters after a failure: nothing is stored where Redis fails as well.
  abbrev pub dead_letters : DecodedFrame → List (Blob fl.F) → List (Blob fl.F)
  dead_letters frame old = elim dlq_error [
    | none ↦ last_n m (old ++ failed_frame (from_exception frame exc) ∷ [])
    | some swallowed ↦ old
  ]

  -- The pass of the demux worker over a frame at the head of the decoded queue raises nothing, even if
  -- Redis fails while the failure is stored, and takes the frame from the queue. A reading goes to the
  -- end of the telemetry queue; a frame that `demultiplex` drops goes nowhere; and where it raises,
  -- which can only be ValueError, the record of the failure goes to the end of the dead letters. The
  -- bounds of the two queues are positive, and keep the newest elements.
  pub demux_once-routes :
      0 < n
      → 0 < m
      → (db : Db) (frame : DecodedFrame) (rest : List (Blob fl.F))
      → (contents db).lists decoded_queue_key ≡ decoded_frame frame ∷ rest
      → let after = demux_once fl redis n m exc dlq_error db in
        let telemetry = (contents db).lists telemetry_queue_key in
        let letters = (contents db).lists dlq_key in
        (after.0 ≡ ok true)
        × ((contents after.1).lists decoded_queue_key ≡ rest)
        × (((r : TelemetryReading fl.F) × (demultiplex fl frame ≡ ok (some r))
              × ((contents after.1).lists telemetry_queue_key
                  ≡ last_n n (telemetry ++ reading r ∷ []))
              × ((contents after.1).lists dlq_key ≡ letters))
            ⊎ ((demultiplex fl frame ≡ ok none)
                × ((contents after.1).lists telemetry_queue_key ≡ telemetry)
                × ((contents after.1).lists dlq_key ≡ letters))
            ⊎ ((demultiplex fl frame ≡ raise value_error)
                × ((contents after.1).lists telemetry_queue_key ≡ telemetry)
                × ((contents after.1).lists dlq_key ≡ dead_letters frame letters)))
  unfolding demux_once pop_decoded push_reading push_failed
  demux_once-routes bound_n bound_m db frame rest queued =
      let head : (lpop_cmd db decoded_queue_key).0 ≡ some (decoded_frame frame) =
        rw (lpop_result, queued) in
      let db' = (lpop_cmd db decoded_queue_key).1 in
      let tail : (contents db').lists decoded_queue_key ≡ rest = rw (lpop_law, queued) in
      let telemetry : (contents db').lists telemetry_queue_key
          ≡ (contents db).lists telemetry_queue_key =
        rw lpop_law in
      let letters : (contents db').lists dlq_key ≡ (contents db).lists dlq_key = rw lpop_law in
      elim (Result-cases (demultiplex fl frame)) [
        | inl (some r, made) ↦
            let (here, elsewhere) =
              lists-push_bounded redis telemetry_queue_key n db' (reading r) bound_n in
            rw (head, demux_once, made)
              (
                refl,
                elsewhere decoded_queue_key refl ∙ tail,
                inl (r, refl, here ∙ rw telemetry, elsewhere dlq_key refl ∙ letters),
              )
        | inl (none, dropped) ↦
            rw (head, demux_once, dropped) (refl, tail, inr (inl (refl, telemetry, letters)))
        | inr (e, raised) ↦
            let failed =
              raised ∙ ap (λ x. raise x) (demultiplex-OnlyValueError fl frame e raised) in
            elim (Option-cases dlq_error) [
              | inr (swallowed, broken) ↦
                  rw (head, demux_once, failed, broken, dead_letters)
                    (refl, tail, inr (inr (refl, telemetry, letters)))
              | inl works ↦
                  let (here, elsewhere) =
                    lists-push_bounded redis dlq_key m db' (failed_frame (from_exception frame exc))
                      bound_m in
                  rw (head, demux_once, failed, works, dead_letters)
                    (
                      refl,
                      elsewhere decoded_queue_key refl ∙ tail,
                      inr (
                          inr (
                            refl,
                            elsewhere telemetry_queue_key refl ∙ telemetry,
                            here ∙ rw letters,
                          )),
                    )
            ]
      ]
