-- ===== src/Workers/Decode.antt =====
-- leo_telemetry/decode/run.py
pub mod Drain
use leo_telemetry.Base.{ℕ, zero, suc, List, Bool, true, false, Option, none, some}
use leo_telemetry.Base.Result.{Result, ok, raise}
use leo_telemetry.Redis.{Redis}
use leo_telemetry.Decode.Ax25.{decode_frame}
use leo_telemetry.Queues.{pop_raw, push_decoded}

module _ {F : Type 0} (redis : Redis F) (calc : List ℕ → ℕ) (max_queue_size : ℕ) where
  open redis use {Db}

  -- _decode_once: whether a frame was popped. An exception of the decoder drops the frame.
  unfoldable pub decode_once : Db → Result Bool × Db
  unfolding pop_raw
  decode_once db =
      let (popped, db') = pop_raw redis db in
      elim popped [
        | raise e ↦ (raise e, db')
        | ok none ↦ (ok false, db')
        | ok (some frame) ↦ elim (decode_frame calc (some frame) false) [
          | raise e ↦ (ok true, db')
          | ok none ↦ (ok true, db')
          | ok (some result) ↦ (ok true, push_decoded redis max_queue_size db' result)
        ]
      ]

  -- `run`'s loop over so many passes, with no stop signal; the last pass is what the loop waits on.
  unfoldable pub decode_passes : ℕ → Db → Result Bool × Db
  decode_passes zero db = (ok true, db)
  decode_passes (suc n) db =
      let (answer, db') = decode_once db in
      let rest = decode_passes n db' in elim answer [ raise e ↦ (raise e, db') | ok b ↦ rest ]
