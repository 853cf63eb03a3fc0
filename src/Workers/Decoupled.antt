-- ===== src/Workers/Decoupled.antt =====
-- leo_telemetry/demux/decoupled_run.py: the demux worker without a dead-letter queue.
use leo_telemetry.Base.{ℕ, Bool, true, false, none, some}
use leo_telemetry.Base.Result.{Result, ok, raise, attribute_error}
use leo_telemetry.Float.{FloatOps}
use leo_telemetry.Redis.{Redis}
use leo_telemetry.Demux.Demultiplex.{demultiplex}
use leo_telemetry.Queues.{pop_decoded, push_reading}

module _ (fl : FloatOps) (redis : Redis fl.F) (n : ℕ) where
  open redis use {Db}

  -- _demux_once: what `demultiplex` returns is pushed, None included, and then its fields are read.
  unfoldable pub decoupled_demux_once : Db → Result Bool × Db
  unfolding pop_decoded
  decoupled_demux_once db =
      let (popped, db') = pop_decoded redis db in
      elim popped [
        | raise e ↦ (raise e, db')
        | ok none ↦ (ok false, db')
        | ok (some frame) ↦ elim (demultiplex fl frame) [
          | raise e ↦ (ok true, db')
          | ok none ↦ (raise attribute_error, push_reading redis n db' none)
          | ok (some reading) ↦ (ok true, push_reading redis n db' (some reading))
        ]
      ]
