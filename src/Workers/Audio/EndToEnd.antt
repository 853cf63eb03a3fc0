-- ===== src/Workers/Audio/EndToEnd.antt =====
-- From the bits of a recording to the decoded queue.
use leo_telemetry.Base.{
  ℕ, ◌<◌, ◌≤◌, ◌≡◌, refl, sym, ◌∙◌, List, [], ◌∷◌, ◌++◌, map, true, false, some, String, any, ◌==◌,
  All, append-nil, append_assoc, length,
}
use leo_telemetry.Base.Result.{Result, ok, ◌>>=◌}
use leo_telemetry.Models.{AudioObservation}
use leo_telemetry.Redis.{Redis}
use leo_telemetry.Redis.View.{Blob, decoded_frame, observation}
use leo_telemetry.Decode.FrameSync.{extract_frames}
use leo_telemetry.Decode.FrameSync.Stuffing.{AllBits}
use leo_telemetry.Decode.FrameSync.Flags.{no_six}
use leo_telemetry.Decode.FrameSync.Streams.{stream, IsFrame, extract_frames-stream}
use leo_telemetry.Decode.Cw.{cw_norad_ids}
use leo_telemetry.Decode.Ax25.Encode.{Address, build_ax25_frame, path_bytes}
use leo_telemetry.Decode.Ax25.RoundTrip.{IsTransmission, decode_frame-build}
use leo_telemetry.Queues.{audio_queue_key, decoded_queue_key, pop_audio, push_decoded}
use leo_telemetry.Queues.Bounded.{
  last_n, last_n_all, last_n-append, length-last_n, lists-push_bounded,
}
use leo_telemetry.Workers.Audio.{raw_of, push_frames, decode_audio_once}

-- What a station sends: the path, the control and PID bytes, and the information field.
pub record Transmission : Type 0 where
  pub dest : Address
  pub src : Address
  pub digipeaters : List Address
  pub control_pid : List ℕ
  pub info : List ℕ

abbrev pub CanSend : Transmission → Type 0
CanSend t = IsTransmission t.dest t.src t.digipeaters t.control_pid

abbrev pub frame_of : (List ℕ → ℕ) → Transmission → List ℕ
frame_of calc t =
    build_ax25_frame calc (path_bytes t.dest (t.src ∷ t.digipeaters)) t.control_pid t.info true

abbrev pub heard : {F : Type 0} → AudioObservation → Transmission → Blob F
heard o t = decoded_frame (record {
  norad_id = o.norad_id;
  received_at = o.observed_at;
  src_callsign = t.src.callsign;
  dest_callsign = t.dest.callsign;
  payload = t.info;
  crc_valid = true;
})

module _ {F : Type 0} (redis : Redis F) (calc : List ℕ → ℕ) (fetch_bits : String → Result (List ℕ))
    (n : ℕ) where
  open redis use {Db, contents, lpop_cmd, lpop_result, lpop_law}

  push_frames-heard :
      0 < n
      → (o : AudioObservation) (ts : List Transmission) (db : Db)
      → any (λ c. c == o.norad_id) cw_norad_ids ≡ false
      → All CanSend ts
      → length ((contents db).lists decoded_queue_key) ≤ n
      → ((contents (push_frames redis calc fetch_bits n o (map (frame_of calc) ts) db)).lists
            decoded_queue_key
          ≡ last_n n ((contents db).lists decoded_queue_key ++ map (heard o) ts))
        × ((contents (push_frames redis calc fetch_bits n o (map (frame_of calc) ts) db)).lists
              audio_queue_key
            ≡ (contents db).lists audio_queue_key)
  unfolding push_frames push_decoded
  push_frames-heard bound o [] db not_cw sent fits =
      (rw append-nil (sym (last_n_all n ((contents db).lists decoded_queue_key) fits)), refl)
  push_frames-heard bound o (t ∷ ts) db not_cw sent fits =
      let (here, elsewhere) = lists-push_bounded redis decoded_queue_key n db (heard o t) bound in
      let db' = push_decoded redis n db (record {
        norad_id = o.norad_id;
        received_at = o.observed_at;
        src_callsign = t.src.callsign;
        dest_callsign = t.dest.callsign;
        payload = t.info;
        crc_valid = true;
      }) in
      let (rest, others) =
        push_frames-heard bound o ts db' not_cw sent.1
          (rw here (length-last_n n ((contents db).lists decoded_queue_key ++ heard o t ∷ []))) in
      let made =
        decode_frame-build calc t.dest t.src t.digipeaters t.control_pid t.info true
          (raw_of o (frame_of calc t)) sent.0 not_cw refl in
      rw (made, push_frames)
        (rest ∙ rw here (rw (last_n-append, append_assoc)), others ∙ elsewhere audio_queue_key refl)

  -- When the demodulated bits of a queued recording are those that a satellite's station sent (any
  -- number of AX.25 frames of bytes with their checksums and with valid callsigns, between noise without
  -- a run of six ones), and the satellite is not the CW satellite, one pass of the audio worker raises
  -- nothing, takes the observation from its queue, and appends exactly the sent callsigns and
  -- information fields to the decoded queue, in order, of which the bound keeps the newest. The decoded
  -- queue starts within its bound, which is positive.
  pub decode_audio_once-heard :
      0 < n
      → (o : AudioObservation) (rest : List (Blob F)) (db : Db) (lead : List ℕ)
        (ts : List Transmission) (tail : List ℕ)
      → (contents db).lists audio_queue_key ≡ observation o ∷ rest
      → length ((contents db).lists decoded_queue_key) ≤ n
      → any (λ c. c == o.norad_id) cw_norad_ids ≡ false
      → AllBits lead
      → no_six 0 lead ≡ true
      → AllBits tail
      → no_six 0 tail ≡ true
      → All CanSend ts
      → All IsFrame (map (frame_of calc) ts)
      → fetch_bits o.payload_url ≡ ok (lead ++ stream (map (frame_of calc) ts) tail)
      → ((decode_audio_once redis calc fetch_bits n db).0 ≡ ok true)
        × ((contents (decode_audio_once redis calc fetch_bits n db).1).lists audio_queue_key ≡ rest)
        × ((contents (decode_audio_once redis calc fetch_bits n db).1).lists decoded_queue_key
            ≡ last_n n ((contents db).lists decoded_queue_key ++ map (heard o) ts))
  unfolding decode_audio_once pop_audio
  decode_audio_once-heard bound o rest db lead ts tail queued fits not_cw bl hl bt ht sent frames
        bits =
      let head : (lpop_cmd db audio_queue_key).0 ≡ some (observation o) =
        rw (lpop_result, queued) in
      let db' = (lpop_cmd db audio_queue_key).1 in
      let behind : (contents db').lists audio_queue_key ≡ rest = rw (lpop_law, queued) in
      let other : (contents db').lists decoded_queue_key ≡ (contents db).lists decoded_queue_key =
        rw lpop_law in
      let found : (fetch_bits o.payload_url >>= extract_frames) ≡ ok (map (frame_of calc) ts) =
        rw bits (extract_frames-stream lead (map (frame_of calc) ts) tail bl hl bt ht frames) in
      let (made, kept) = push_frames-heard bound o ts db' not_cw sent (rw other fits) in
      rw (head, decode_audio_once, found) (refl, kept ∙ behind, made ∙ rw other)
