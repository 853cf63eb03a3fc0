-- ===== src/Pipeline/Backlog.antt =====
-- A backlog of captures on its way to the telemetry queue.
use leo_telemetry.Base.{
  false, length-map, ℕ, ◌≤◌, ◌<◌, ◌≡◌, refl, ap, ◌∙◌, List, [], ◌∷◌, ◌++◌, map, true, Option, none,
  some, inl, inr, length, arith,
}
use leo_telemetry.Base.Result.{Error, ok, raise, Result-cases}
use leo_telemetry.Float.{FloatOps}
use leo_telemetry.Models.{RawFrame, DecodedFrame}
use leo_telemetry.Redis.{Redis}
use leo_telemetry.Redis.View.{Blob, raw_frame, decoded_frame}
use leo_telemetry.Decode.Ax25.{decode_frame}
use leo_telemetry.Queues.{
  raw_queue_key, decoded_queue_key, telemetry_queue_key, pop_raw, push_decoded,
}
use leo_telemetry.Queues.Bounded.{last_n, last_n_all, length-last_n, lists-push_bounded}
use leo_telemetry.Workers.Decode.{decode_once, decode_passes}
use leo_telemetry.Workers.Decode.Drain.{
  decoded_of, decoded_all, decode_once-step, decode_passes-drain,
}
use leo_telemetry.Workers.Demux.{Failure, demux_passes}
use leo_telemetry.Workers.Demux.Drain.{readings_all, demux_passes-drain}

-- The frames that the decoder makes of some captures, in their order.
abbrev pub decoded_frames : (List ℕ → ℕ) → List RawFrame → List DecodedFrame
decoded_frames calc [] = []
decoded_frames calc (frame ∷ frames) = elim (decode_frame calc (some frame) false) [
  | ok (some d) ↦ d ∷ decoded_frames calc frames
  | ok none ↦ decoded_frames calc frames
  | raise e ↦ decoded_frames calc frames
]

map-decoded_frames :
    {F : Type 0} (calc : List ℕ → ℕ) (frames : List RawFrame)
    → decoded_all {F = F} calc frames ≡ map decoded_frame (decoded_frames calc frames)
map-decoded_frames calc [] = refl
map-decoded_frames calc (frame ∷ frames) =
    let rest = map-decoded_frames calc frames in
    elim (Result-cases (decode_frame calc (some frame) false)) [
      | inr (e, raised) ↦ rw (decoded_all, decoded_of, decoded_frames, raised) rest
      | inl (none, nothing) ↦ rw (decoded_all, decoded_of, decoded_frames, nothing) rest
      | inl (some d, made) ↦
          rw (decoded_all, decoded_of, decoded_frames, made) (ap (λ bs. decoded_frame d ∷ bs) rest)
    ]

-- At most one frame for each capture.
length-decoded_frames :
    (calc : List ℕ → ℕ) (frames : List RawFrame)
    → length (decoded_frames calc frames) ≤ length frames
length-decoded_frames calc [] = omega arith
length-decoded_frames calc (frame ∷ frames) =
    let rest = length-decoded_frames calc frames in
    elim (Result-cases (decode_frame calc (some frame) false)) [
      | inr (e, raised) ↦ rw (decoded_frames, raised) (omega (arith, rest))
      | inl (none, nothing) ↦ rw (decoded_frames, nothing) (omega (arith, rest))
      | inl (some d, made) ↦ rw (decoded_frames, made) (omega (arith, rest))
    ]

module _ (fl : FloatOps) (redis : Redis fl.F) (calc : List ℕ → ℕ) (n : ℕ) (bound : 0 < n) where
  open redis use {Db, contents, lpop_cmd, lpop_result, lpop_law}

  -- A pass of the decode worker leaves the telemetry queue alone.
  decode_once-telemetry :
      (db : Db) (frame : RawFrame) (rest : List (Blob fl.F))
      → (contents db).lists raw_queue_key ≡ raw_frame frame ∷ rest
      → (contents (decode_once redis calc n db).1).lists telemetry_queue_key
        ≡ (contents db).lists telemetry_queue_key
  unfolding decode_once pop_raw push_decoded
  decode_once-telemetry db frame rest queued =
      let head : (lpop_cmd db raw_queue_key).0 ≡ some (raw_frame frame) =
        rw (lpop_result, queued) in
      let same : (contents (lpop_cmd db raw_queue_key).1).lists telemetry_queue_key
          ≡ (contents db).lists telemetry_queue_key =
        rw lpop_law in
      elim (Result-cases (decode_frame calc (some frame) false)) [
        | inr (e, raised) ↦ rw (decode_once, head, raised) same
        | inl (none, nothing) ↦ rw (decode_once, head, nothing) same
        | inl (some d, made) ↦
            let (here, elsewhere) =
              lists-push_bounded redis decoded_queue_key n (lpop_cmd db raw_queue_key).1
                (decoded_frame d) bound in
            rw (decode_once, head, made) (elsewhere telemetry_queue_key refl ∙ same)
      ]

  decode_passes-telemetry :
      (frames : List RawFrame) (db : Db)
      → (contents db).lists raw_queue_key ≡ map raw_frame frames
      → length ((contents db).lists decoded_queue_key) ≤ n
      → (contents (decode_passes redis calc n (length frames) db).1).lists telemetry_queue_key
        ≡ (contents db).lists telemetry_queue_key
  unfolding decode_passes
  decode_passes-telemetry [] db queued fits = refl
  decode_passes-telemetry (frame ∷ frames) db queued fits =
      let (answer, tail, made) =
        decode_once-step redis calc n bound db frame (map raw_frame frames) queued fits in
      let kept = decode_once-telemetry db frame (map raw_frame frames) queued in
      let next = (decode_once redis calc n db).1 in
      let rest = decode_passes-telemetry frames next tail (
        rw made
          (length-last_n n ((contents db).lists decoded_queue_key ++ decoded_of calc frame))) in
      rw (answer, decode_passes) (rest ∙ kept)

  -- However many captures are queued, within the bound of the decoded queue, as many passes of the decode
  -- worker, and then one pass of the demux worker for each decoded frame, empty both queues and raise
  -- nothing. The telemetry queue gets the readings of the captures in the captures' order, of which its
  -- bound keeps the newest. The decoded queue is empty at the start, the telemetry queue is within its
  -- bound, and the bounds are positive.
  pub demux_passes-decode_passes :
      (frames : List RawFrame) (passes : List (Failure × Option Error)) (k m : ℕ) (db : Db)
      → 0 < k
      → 0 < m
      → (contents db).lists raw_queue_key ≡ map raw_frame frames
      → (contents db).lists decoded_queue_key ≡ []
      → length frames ≤ n
      → length ((contents db).lists telemetry_queue_key) ≤ k
      → length passes ≡ length (decoded_frames calc frames)
      → let decoded = decode_passes redis calc n (length frames) db in
        let demuxed = demux_passes fl redis k m passes decoded.1 in
        (decoded.0 ≡ ok true)
        × (demuxed.0 ≡ ok true)
        × ((contents decoded.1).lists raw_queue_key ≡ [])
        × ((contents demuxed.1).lists decoded_queue_key ≡ [])
        × ((contents demuxed.1).lists telemetry_queue_key
            ≡ last_n k (
                (contents db).lists telemetry_queue_key
                ++ readings_all fl (decoded_frames calc frames)))
  demux_passes-decode_passes frames passes k m db bound_k bound_m queued empty room fits enough =
      let none_yet : length ((contents db).lists decoded_queue_key) ≤ n = rw empty (omega arith) in
      let (answer, drained, made) =
        decode_passes-drain redis calc n bound frames db queued none_yet in
      let after = (decode_passes redis calc n (length frames) db).1 in
      let kept = decode_passes-telemetry frames db queued none_yet in
      let small = length-decoded_frames calc frames in
      let all = map-decoded_frames calc frames in
      let size : length (map decoded_frame (decoded_frames calc frames)) ≤ n = omega (
        arith,
        small,
        room,
        length-map {B = Blob fl.F} decoded_frame (decoded_frames calc frames),
      ) in
      let waiting : (contents after).lists decoded_queue_key
          ≡ map decoded_frame (decoded_frames calc frames) =
        made ∙ rw empty (ap (λ bs. last_n n bs) all ∙ last_n_all n _ size) in
      let (answers, none_left, sent) =
        demux_passes-drain fl redis k m bound_k bound_m passes (decoded_frames calc frames) after
          enough waiting (rw kept fits) in
      (answer, answers, drained, none_left, sent ∙ rw kept refl)
