-- ===== src/Workers/Demux.antt =====
-- leo_telemetry/demux/run.py, and the failure record of leo_telemetry/demux/dlq.py
pub mod Routing
pub mod Drain
use leo_telemetry.Base.{
  ℕ, ◌/◌, ◌%◌, ◌+◌, List, [], ◌∷◌, Bool, true, false, Option, none, some, String, ltb,
  if◌then◌else◌,
}
use leo_telemetry.Base.Result.{Error, Result, ok, raise, value_error}
use leo_telemetry.Float.{FloatOps}
use leo_telemetry.Models.{DecodedFrame, FailedDemuxFrame}
use leo_telemetry.Redis.{Redis}
use leo_telemetry.Demux.Demultiplex.{demultiplex}
use leo_telemetry.Queues.{pop_decoded, push_reading, push_failed}

abbrev hex_digit : ℕ → ℕ
hex_digit d = if ltb d 10 then b'0' + d else 87 + d

-- bytes.hex()
abbrev pub hex_text : List ℕ → List ℕ
hex_text [] = []
hex_text (b ∷ bytes) = hex_digit (b / 16) ∷ hex_digit (b % 16) ∷ hex_text bytes

-- What the handler finds besides the frame: str(exc), the formatted traceback, the clock.
pub record Failure : Type 0 where
  pub message : String
  pub traceback : String
  pub now : ℕ

-- FailedDemuxFrame.from_exception
abbrev pub from_exception : DecodedFrame → Failure → FailedDemuxFrame
from_exception frame exc = record {
  norad_id = frame.norad_id;
  received_at = frame.received_at;
  payload_hex = hex_text frame.payload;
  error_message = exc.message;
  traceback = exc.traceback;
  failed_at = exc.now;
}

-- `dlq_error` is the exception that Redis raises while the failure is pushed, if it does.
module _ (fl : FloatOps) (redis : Redis fl.F) (n dlq_max : ℕ) (exc : Failure)
    (dlq_error : Option Error) where
  open redis use {Db}

  -- _demux_once: ValueError is routed to the dead letters, and any other exception leaves the worker.
  unfoldable pub demux_once : Db → Result Bool × Db
  unfolding pop_decoded
  demux_once db =
      let (popped, db') = pop_decoded redis db in
      elim popped [
        | raise e ↦ (raise e, db')
        | ok none ↦ (ok false, db')
        | ok (some frame) ↦ elim (demultiplex fl frame) [
          | ok none ↦ (ok true, db')
          | ok (some reading) ↦ (ok true, push_reading redis n db' (some reading))
          | raise value_error ↦ elim dlq_error [
            | none ↦ (ok true, push_failed redis dlq_max db' (from_exception frame exc))
            | some swallowed ↦ (ok true, db')
          ]
          | raise e ↦ (raise e, db')
        ]
      ]

-- `run`'s loop over so many passes, with no stop signal; each finds its own failure, if any.
module _ (fl : FloatOps) (redis : Redis fl.F) (n dlq_max : ℕ) where
  pub demux_passes : List (Failure × Option Error) → redis.Db → Result Bool × redis.Db
  demux_passes [] db = (ok true, db)
  demux_passes ((exc, dlq_error) ∷ passes) db =
      let (answer, db') = demux_once fl redis n dlq_max exc dlq_error db in
      let rest = demux_passes passes db' in elim answer [ raise e ↦ (raise e, db') | ok b ↦ rest ]
