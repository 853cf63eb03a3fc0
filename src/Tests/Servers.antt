-- ===== src/Tests/Servers.antt =====
-- The queues and the workers, on a server that is its contents.
use text.Mathlib.Text.{◌==◌ as str_eq}
use leo_telemetry.Timestamps.{utc}
use leo_telemetry.Base.{
  ◌≢◌, =l=_refl, ℕ, ◌≡◌, refl, ◌⊎◌, List, [], ◌∷◌, ◌++◌, true, false, ◌==◌, none, some, String,
  all_bytes, arith, codes,
}
use leo_telemetry.Base.Int.{ℤ}
use leo_telemetry.Base.Result.{type_error, Result, ok, raise, value_error}
use leo_telemetry.Models.{dedup_key, TelemetryReading}
use leo_telemetry.Redis.View.{
  Contents, raw_frame, decoded_frame, reading, observation, failed_frame, is_member, hset, hget,
}
use leo_telemetry.Redis.Memory.{memory}
use leo_telemetry.Decode.FrameSync.Streams.{stream}
use leo_telemetry.Decode.Ax25.Encode.{shifted_address, path_bytes, build_ax25_frame}
use leo_telemetry.Decode.Ax25.RoundTrip.{IsTransmission}
use leo_telemetry.Demux.Demultiplex.{demultiplex}
use leo_telemetry.Queues.{
  raw_queue_key, decoded_queue_key, telemetry_queue_key, dlq_key, raw_seen_key, audio_queue_key,
  push_bounded, push_once,
}
use leo_telemetry.Queues.Bounded.{last_n, push_bounded-zero}
use leo_telemetry.Queues.Dedup.{push_once-lem}
use leo_telemetry.Workers.Audio.{decode_audio_once}
use leo_telemetry.Workers.Audio.EndToEnd.{Transmission, frame_of, heard, decode_audio_once-heard}
use leo_telemetry.Workers.Demux.{Failure, from_exception, demux_once}
use leo_telemetry.Workers.Demux.Routing.{demux_once-routes}
use leo_telemetry.Workers.Ingest.Overlap.{IsSeen}
use leo_telemetry.Workers.Latest.{hash_key, save}
use leo_telemetry.Workers.Latest.Newest.{save-newest}
use leo_telemetry.Tests.Data.{
  unhashed, sum16, integers, ground_station, satellite, digipeater, ui_no_layer_3, info, capture,
  status, unknown_type, bad_checksum, status_reading, recording, with_list,
}

abbrev one_queued : Contents ℤ
one_queued = with_list decoded_queue_key (decoded_frame status ∷ [])

push_bounded-zero_example :
    (push_bounded (memory ℤ) decoded_queue_key 0 one_queued (decoded_frame unknown_type)).lists
      decoded_queue_key
    ≡ decoded_frame status ∷ decoded_frame unknown_type ∷ []
push_bounded-zero_example =
    push_bounded-zero (memory ℤ) decoded_queue_key one_queued (decoded_frame unknown_type)

abbrev once_seen : Contents ℤ
once_seen = record one_queued { sets = λ k. codes "60525:7:ab" ∷ [] }

push_once-lem_example :
    let after =
      push_once
        (memory ℤ)
        raw_seen_key
        raw_queue_key
        60
        5
        once_seen
        (codes "60525:8:cd")
        (raw_frame capture) in
    (after.0 ≡ true)
    × (after.1.lists raw_queue_key ≡ raw_frame capture ∷ [])
    × ((j : String) → str_eq raw_queue_key j ≡ false → after.1.lists j ≡ once_seen.lists j)
    × (is_member (codes "60525:8:cd") (after.1.sets raw_seen_key) ≡ true)
    × (after.1.ttls raw_seen_key ≡ some 60)
push_once-lem_example =
    push_once-lem (memory ℤ) raw_seen_key raw_queue_key 60 5 once_seen (codes "60525:8:cd")
      (raw_frame capture) (omega arith) (omega arith)

abbrev failure : Failure
failure = record { message = "unknown APRS data type"; traceback = "ValueError"; now = 200 }

abbrev failing : Contents ℤ
failing = with_list decoded_queue_key (decoded_frame unknown_type ∷ decoded_frame status ∷ [])

demux_once-routes_example :
    let after = demux_once integers (memory ℤ) 9 9 failure none failing in
    (after.0 ≡ ok true)
    × (after.1.lists decoded_queue_key ≡ decoded_frame status ∷ [])
    × (((r : TelemetryReading ℤ) × (demultiplex integers unknown_type ≡ ok (some r))
          × (after.1.lists telemetry_queue_key ≡ last_n 9 (reading r ∷ []))
          × (after.1.lists dlq_key ≡ []))
        ⊎ ((demultiplex integers unknown_type ≡ ok none)
            × (after.1.lists telemetry_queue_key ≡ [])
            × (after.1.lists dlq_key ≡ []))
        ⊎ ((demultiplex integers unknown_type ≡ raise value_error)
            × (after.1.lists telemetry_queue_key ≡ [])
            × (after.1.lists dlq_key ≡ failed_frame (from_exception unknown_type failure) ∷ [])))
demux_once-routes_example =
    demux_once-routes integers (memory ℤ) 9 9 failure none (omega arith) (omega arith) failing
      unknown_type (decoded_frame status ∷ []) refl

abbrev dropping : Contents ℤ
dropping = with_list decoded_queue_key (decoded_frame bad_checksum ∷ [])

abbrev transmission : Transmission
transmission = record {
  dest = ground_station;
  src = satellite;
  digipeaters = digipeater ∷ [];
  control_pid = ui_no_layer_3;
  info = info;
}

abbrev recorded : Contents ℤ
recorded = with_list audio_queue_key (observation recording ∷ [])

abbrev demodulated : String → Result (List ℕ)
demodulated url = ok (codes "0010" ++ stream (frame_of sum16 transmission ∷ []) (codes "1"))

IsTransmission-sent : IsTransmission ground_station satellite (digipeater ∷ []) ui_no_layer_3
IsTransmission-sent = record {
  dest_valid = record { fits = omega arith; graphic = refl };
  src_valid = record { fits = omega arith; graphic = refl };
  digipeaters_valid = (record { fits = omega arith; graphic = refl }, tt);
  two_bytes = refl;
}

decode_audio_once-heard_example :
    ((decode_audio_once (memory ℤ) sum16 demodulated 9 recorded).0 ≡ ok true)
    × ((decode_audio_once (memory ℤ) sum16 demodulated 9 recorded).1.lists audio_queue_key ≡ [])
    × ((decode_audio_once (memory ℤ) sum16 demodulated 9 recorded).1.lists decoded_queue_key
        ≡ heard recording transmission ∷ [])
unfolding build_ax25_frame path_bytes shifted_address
decode_audio_once-heard_example =
    decode_audio_once-heard (memory ℤ) sum16 demodulated 9 (omega arith) recording [] recorded
      (codes "0010") (transmission ∷ []) (codes "1") refl (omega arith) refl refl refl refl refl
      (IsTransmission-sent, tt) ((all_bytes (frame_of sum16 transmission) refl, (λ e. cc)), tt) refl

abbrev newer_reading : TelemetryReading ℤ
newer_reading = record status_reading { received_at = utc 150 }

abbrev stored_once : Contents ℤ
stored_once = hset (with_list decoded_queue_key []) hash_key 25544 (reading newer_reading)

save-newest_example :
    ((db' : Contents ℤ) × (save (memory ℤ) stored_once status_reading ≡ ok db')
      × (hget db' hash_key 25544 ≡ some (reading newer_reading))
      × ((j : ℕ) → (25544 == j) ≡ false → hget db' hash_key j ≡ hget stored_once hash_key j)
      × ((s : TelemetryReading ℤ) → some newer_reading ≡ some s → true ≡ s.received_at.is_aware))
    ⊎ ((save (memory ℤ) stored_once status_reading ≡ raise type_error)
        × ((s : TelemetryReading ℤ) × (some newer_reading ≡ some s)
            × (true ≢ s.received_at.is_aware)))
save-newest_example = save-newest (memory ℤ) stored_once status_reading (some newer_reading) refl

-- Every seen-set of this server holds the capture's key.
abbrev all_seen : Contents ℤ
all_seen = record one_queued { sets = λ k. dedup_key unhashed capture ∷ [] }

IsSeen-capture : IsSeen unhashed all_seen capture
IsSeen-capture = rw (=l=_refl (dedup_key unhashed capture))
