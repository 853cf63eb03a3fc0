-- ===== src/Decode/Ax25/RoundTrip.antt =====
-- The decoder reads back the frames that an AX.25 station sends.
use leo_telemetry.Base.{
  ℕ, suc, ◌+◌, ◌-◌, ◌*◌, ◌≤◌, ◌≡◌, ◌≢◌, refl, ap, sym, ◌∙◌, List, [], ◌∷◌, ◌++◌, Bool, true, false,
  not, ◌&&◌, some, ◌==◌, if◌then◌else◌, arith, length, any, All, length-append, drop-length,
  slice_of_drop, append_assoc, append-nil, Bool-cases, inl, inr, le→ltb,
}
use leo_telemetry.Base.Result.{ok}
use leo_telemetry.Models.{RawFrame, DecodedFrame}
use leo_telemetry.Decode.Crc16.{fcs_bytes, verify_fcs, verify_fcs-append}
use leo_telemetry.Decode.Cw.{cw_norad_ids}
use leo_telemetry.Decode.Ax25.{build_frame, payload_of, decode_ax25, decode_frame}
use leo_telemetry.Decode.Ax25.Encode.{Address, IsAddress, path_bytes, build_ax25_frame}
use leo_telemetry.Decode.Ax25.Paths.{address_loop-path, length-path_bytes}

-- What a station sends: two addresses at least, control and PID, the information field, and the
-- checksum where the capture keeps it.
pub record IsTransmission (dest src : Address) (digipeaters : List Address) (control_pid : List ℕ)
    : Type 0 where
  pub dest_valid : IsAddress dest
  pub src_valid : IsAddress src
  pub digipeaters_valid : All IsAddress digipeaters
  pub two_bytes : length control_pid ≡ 2

abbrev trailer : (List ℕ → ℕ) → List ℕ → Bool → List ℕ
trailer calc body has_fcs = if has_fcs then fcs_bytes (calc body) else []

-- The payload is what stands between the header and the trailer.
payload_of-between :
    (calc : List ℕ → ℕ) (has_fcs : Bool) (front info body : List ℕ)
    → payload_of (front ++ (info ++ trailer calc body has_fcs)) (length front) has_fcs ≡ info
payload_of-between calc true front info body =
    let fcs = fcs_bytes (calc body) in
    let all_bytes = front ++ (info ++ fcs) in
    let stop : length all_bytes - 2 ≡ length front + length info =
      omega (arith, length-append front (info ++ fcs), length-append info fcs) in
    rw stop (slice_of_drop all_bytes (length front) info fcs (drop-length front (info ++ fcs)))
payload_of-between calc false front info body = drop-length front (info ++ []) ∙ append-nil info

module _ (calc : List ℕ → ℕ) (dest src : Address) (digipeaters : List Address)
    (control_pid info : List ℕ) (has_fcs : Bool)
    (sent : IsTransmission dest src digipeaters control_pid) where
  addresses : List ℕ
  addresses = path_bytes dest (src ∷ digipeaters)

  body : List ℕ
  unfolding addresses
  body = addresses ++ (control_pid ++ info)

  build-split :
      build_ax25_frame calc addresses control_pid info has_fcs
      ≡ addresses ++ ((control_pid ++ info) ++ trailer calc body has_fcs)
  unfolding build_ax25_frame body
  build-split = elim (Bool-cases has_fcs) [
    | inl kept ↦ rw kept (append_assoc addresses (control_pid ++ info) (fcs_bytes (calc body)))
    | inr stripped ↦ rw stripped (ap (λ t. addresses ++ t) (sym (append-nil (control_pid ++ info))))
  ]

  fcs-passes :
      (has_fcs && not (verify_fcs calc (build_ax25_frame calc addresses control_pid info has_fcs)))
      ≡ false
  unfolding build_ax25_frame body
  fcs-passes = elim (Bool-cases has_fcs) [
    | inl kept ↦ rw (kept, verify_fcs-append calc body body-ne) refl
    | inr stripped ↦ rw stripped refl
  ]
    where
      body-ne : body ≢ []
      body-ne e = omega (
        arith,
        ap length e,
        length-append addresses (control_pid ++ info),
        length-path_bytes (src ∷ digipeaters) dest sent.dest_valid
            (sent.src_valid, sent.digipeaters_valid),
      )

  -- The parts of the frame, with the payload's start as the decoder computes it.
  frame-long : 15 ≤ length (build_ax25_frame calc addresses control_pid info has_fcs)
  unfolding addresses
  frame-long = omega (
    arith,
    ap length build-split,
    length-append addresses ((control_pid ++ info) ++ trailer calc body has_fcs),
    length-append (control_pid ++ info) (trailer calc body has_fcs),
    length-append control_pid info,
    length-path_bytes (src ∷ digipeaters) dest sent.dest_valid
        (sent.src_valid, sent.digipeaters_valid),
    sent.two_bytes,
  )

  payload-build :
      payload_of
        (build_ax25_frame calc addresses control_pid info has_fcs)
        (0 + 7 * suc (length (src ∷ digipeaters)) + 2)
        has_fcs
      ≡ info
  unfolding addresses
  payload-build =
      let front = addresses ++ control_pid in
      let rest = trailer calc body has_fcs in
      let start : 0 + 7 * suc (length (src ∷ digipeaters)) + 2 ≡ length front = omega (
        arith,
        length-append addresses control_pid,
        length-path_bytes (src ∷ digipeaters) dest sent.dest_valid
            (sent.src_valid, sent.digipeaters_valid),
        sent.two_bytes,
      ) in
      let split : build_ax25_frame calc addresses control_pid info has_fcs
          ≡ front ++ (info ++ rest) =
        build-split
        ∙ ap (λ t. addresses ++ t) (append_assoc control_pid info rest)
        ∙ sym (append_assoc addresses control_pid (info ++ rest)) in
      rw (split, start) (payload_of-between calc has_fcs front info body)

  decoded : RawFrame → DecodedFrame
  decoded raw = record {
    norad_id = raw.norad_id;
    received_at = raw.received_at;
    src_callsign = src.callsign;
    dest_callsign = dest.callsign;
    payload = info;
    crc_valid = true;
  }

  decode_ax25-build :
      (raw : RawFrame)
      → raw.raw_bytes ≡ build_ax25_frame calc addresses control_pid info has_fcs
      → decode_ax25 calc raw has_fcs ≡ ok (some (decoded raw))
  unfolding decode_ax25 decoded addresses
  decode_ax25-build raw e =
      let frame = build_ax25_frame calc addresses control_pid info has_fcs in
      let (scan, behind) =
        address_loop-path (src ∷ digipeaters) dest (suc (length frame)) frame
          ((control_pid ++ info) ++ trailer calc body has_fcs) 0 [] sent.dest_valid
          (sent.src_valid, sent.digipeaters_valid) build-split
          (omega (
            arith,
            ap length build-split,
            length-append addresses ((control_pid ++ info) ++ trailer calc body has_fcs),
            length-path_bytes (src ∷ digipeaters) dest sent.dest_valid
                (sent.src_valid, sent.digipeaters_valid),
          )) in
      rw (e, le→ltb (length frame) 15 frame-long, fcs-passes, scan, build_frame, e, payload-build)

-- For every transmission of a satellite that sends AX.25 (its NORAD id is not the CW satellite's),
-- with valid callsigns, any number of digipeaters, two bytes of control and PID and any information
-- field, with or without the checksum trailer: `decode_frame` accepts the frame and returns its
-- source and destination callsigns and exactly its information field, under the ids of the capture.
pub decode_frame-build :
    (calc : List ℕ → ℕ) (dest src : Address) (digipeaters : List Address)
    (control_pid info : List ℕ) (has_fcs : Bool) (raw : RawFrame)
    → IsTransmission dest src digipeaters control_pid
    → any (λ n. n == raw.norad_id) cw_norad_ids ≡ false
    → raw.raw_bytes
      ≡ build_ax25_frame calc (path_bytes dest (src ∷ digipeaters)) control_pid info has_fcs
    → decode_frame calc (some raw) has_fcs
      ≡ ok (
          some (record {
            norad_id = raw.norad_id;
            received_at = raw.received_at;
            src_callsign = src.callsign;
            dest_callsign = dest.callsign;
            payload = info;
            crc_valid = true;
          }))
unfolding decode_frame addresses decoded
decode_frame-build calc dest src digipeaters control_pid info has_fcs raw sent not_cw e =
    rw not_cw (decode_ax25-build calc dest src digipeaters control_pid info has_fcs sent raw e)
