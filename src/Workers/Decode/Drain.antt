-- ===== src/Workers/Decode/Drain.antt =====
-- A backlog of raw frames is drained in order.
use leo_telemetry.Base.{
  ℕ, ◌≤◌, ◌<◌, ◌≡◌, refl, sym, ◌∙◌, List, [], ◌∷◌, ◌++◌, map, true, false, none, some, inl, inr,
  length, append-nil, append_assoc,
}
use leo_telemetry.Base.Result.{ok, raise, Result-cases}
use leo_telemetry.Models.{RawFrame}
use leo_telemetry.Redis.{Redis}
use leo_telemetry.Redis.View.{Blob, raw_frame, decoded_frame}
use leo_telemetry.Decode.Ax25.{decode_frame}
use leo_telemetry.Queues.{raw_queue_key, decoded_queue_key, pop_raw, push_decoded}
use leo_telemetry.Queues.Bounded.{
  last_n, last_n_all, length-last_n, last_n-append, lists-push_bounded,
}
use leo_telemetry.Workers.Decode.{decode_once, decode_passes}

-- What the decoder makes of a frame: at most one entry of the decoded queue.
abbrev pub decoded_of : {F : Type 0} → (List ℕ → ℕ) → RawFrame → List (Blob F)
decoded_of calc frame = elim (decode_frame calc (some frame) false) [
  | ok (some result) ↦ decoded_frame result ∷ []
  | ok none ↦ []
  | raise e ↦ []
]

abbrev pub decoded_all : {F : Type 0} → (List ℕ → ℕ) → List RawFrame → List (Blob F)
decoded_all calc [] = []
decoded_all calc (frame ∷ frames) = decoded_of calc frame ++ decoded_all calc frames

module _ {F : Type 0} (redis : Redis F) (calc : List ℕ → ℕ) (n : ℕ) (bound : 0 < n) where
  open redis use {Db, contents, lpop_cmd, lpop_result, lpop_law}

  pub decode_once-step :
      (db : Db) (frame : RawFrame) (rest : List (Blob F))
      → (contents db).lists raw_queue_key ≡ raw_frame frame ∷ rest
      → length ((contents db).lists decoded_queue_key) ≤ n
      → ((decode_once redis calc n db).0 ≡ ok true)
        × ((contents (decode_once redis calc n db).1).lists raw_queue_key ≡ rest)
        × ((contents (decode_once redis calc n db).1).lists decoded_queue_key
            ≡ last_n n ((contents db).lists decoded_queue_key ++ decoded_of calc frame))
  unfolding decode_once pop_raw push_decoded
  decode_once-step db frame rest queued fits =
      let head : (lpop_cmd db raw_queue_key).0 ≡ some (raw_frame frame) =
        rw (lpop_result, queued) in
      let tail : (contents (lpop_cmd db raw_queue_key).1).lists raw_queue_key ≡ rest =
        rw (lpop_law, queued) in
      let other : (contents (lpop_cmd db raw_queue_key).1).lists decoded_queue_key
          ≡ (contents db).lists decoded_queue_key =
        rw lpop_law in
      let kept = sym (last_n_all n ((contents db).lists decoded_queue_key) fits) in
      elim (Result-cases (decode_frame calc (some frame) false)) [
        | inr (e, raised) ↦
            rw (decode_once, head, raised)
              (refl, tail, rw (raised, decoded_of, other, append-nil) kept)
        | inl (none, nothing) ↦
            rw (decode_once, head, nothing)
              (refl, tail, rw (nothing, decoded_of, other, append-nil) kept)
        | inl (some result, made) ↦
            let (here, elsewhere) =
              lists-push_bounded redis decoded_queue_key n (lpop_cmd db raw_queue_key).1
                (decoded_frame result) bound in
            rw (decode_once, head, made)
              (refl, elsewhere raw_queue_key refl ∙ tail, here ∙ rw (made, decoded_of, other))
      ]

  -- However many raw frames are queued, as many passes of the decode worker empty the raw queue, raise
  -- nothing, and append what the decoder makes of the frames to the decoded queue in the frames' order,
  -- of which the bound keeps the newest. The decoded queue starts within its bound, which is positive.
  pub decode_passes-drain :
      (frames : List RawFrame) (db : Db)
      → (contents db).lists raw_queue_key ≡ map raw_frame frames
      → length ((contents db).lists decoded_queue_key) ≤ n
      → ((decode_passes redis calc n (length frames) db).0 ≡ ok true)
        × ((contents (decode_passes redis calc n (length frames) db).1).lists raw_queue_key ≡ [])
        × ((contents (decode_passes redis calc n (length frames) db).1).lists decoded_queue_key
            ≡ last_n n ((contents db).lists decoded_queue_key ++ decoded_all calc frames))
  unfolding decode_passes
  decode_passes-drain [] db queued fits = (
    refl,
    queued,
    rw append-nil (sym (last_n_all n ((contents db).lists decoded_queue_key) fits)),
  )
  decode_passes-drain (frame ∷ frames) db queued fits =
      let (answer, tail, made) = decode_once-step db frame (map raw_frame frames) queued fits in
      let (rest, empty, kept) = decode_passes-drain frames (decode_once redis calc n db).1 tail (
        rw made
          (length-last_n n ((contents db).lists decoded_queue_key ++ decoded_of calc frame))) in
      rw (answer, decode_passes) (rest, empty, kept ∙ rw made (rw (last_n-append, append_assoc)))
