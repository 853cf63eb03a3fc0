-- ===== src/Tests/Backlogs.antt =====
-- Captures that wait on the raw queue.
use leo_telemetry.Base.{◌≡◌, refl, sym, ap, true, List, [], ◌∷◌, Option, none, arith, length}
use leo_telemetry.Base.Int.{ℤ}
use leo_telemetry.Base.Result.{Error, ok}
use leo_telemetry.Models.{RawFrame}
use leo_telemetry.Redis.Memory.{memory}
use leo_telemetry.Redis.View.{Contents, raw_frame}
use leo_telemetry.Queues.{raw_queue_key, decoded_queue_key, telemetry_queue_key}
use leo_telemetry.Queues.Bounded.{last_n}
use leo_telemetry.Workers.Decode.{decode_passes}
use leo_telemetry.Workers.Demux.{Failure, demux_passes}
use leo_telemetry.Workers.Demux.Drain.{readings_all}
use leo_telemetry.Pipeline.Backlog.{decoded_frames, demux_passes-decode_passes}
use leo_telemetry.Tests.Data.{integers, sum16, status, with_list}
use leo_telemetry.Tests.Systems.{iss_capture, decode_frame-iss, no_failure}

abbrev captures : List RawFrame
captures = iss_capture ∷ iss_capture ∷ []

abbrev waiting : Contents ℤ
waiting = with_list raw_queue_key (raw_frame iss_capture ∷ raw_frame iss_capture ∷ [])

abbrev passes : List (Failure × Option Error)
passes = (no_failure, none) ∷ (no_failure, none) ∷ []

two_decoded : decoded_frames sum16 captures ≡ status ∷ status ∷ []
two_decoded = rw (decoded_frames, decode_frame-iss, decode_frame-iss) refl

demux_passes-decode_passes_example :
    let after = decode_passes (memory ℤ) sum16 9 2 waiting in
    let demuxed = demux_passes integers (memory ℤ) 9 9 passes after.1 in
    (after.0 ≡ ok true)
    × (demuxed.0 ≡ ok true)
    × (after.1.lists raw_queue_key ≡ [])
    × (demuxed.1.lists decoded_queue_key ≡ [])
    × (demuxed.1.lists telemetry_queue_key
        ≡ last_n 9 (readings_all integers (decoded_frames sum16 captures)))
demux_passes-decode_passes_example =
    demux_passes-decode_passes integers (memory ℤ) sum16 9 (omega arith) captures passes 9 9 waiting
      (omega arith) (omega arith) refl refl (omega arith) (omega arith)
      (ap length (sym two_decoded))
