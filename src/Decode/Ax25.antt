-- ===== src/Decode/Ax25.antt =====
-- leo_telemetry/decode/ax25.py: address parsing and the top-level frame decoder.
-- A shift and a mask of one bit are written as division and remainder.
pub mod Encode
pub mod Paths
pub mod RoundTrip
pub mod Totality
pub mod Checks
use leo_telemetry.Base.{
  ℕ, zero, suc, ◌+◌, ◌-◌, ◌*◌, List, [], ◌∷◌, ◌++◌, map, Bool, true, false, not, ◌&&◌, ◌||◌, Option,
  none, some, ltb, leb, ◌==◌, if◌then◌else◌, length, get_or, take, drop, slice, any, shr, low_bits,
}
use leo_telemetry.Base.Result.{Result, ok, raise, unfinished, ◌>>=◌}
use leo_telemetry.Chars.{decode_ascii, strip}
use leo_telemetry.Models.{RawFrame, DecodedFrame}
use leo_telemetry.Decode.Crc16.{ax25_fcs_bytes, verify_fcs}
use leo_telemetry.Decode.Cw.{cw_norad_ids, decode_cw_beacon}

abbrev pub ax25_address_bytes : ℕ
ax25_address_bytes = 7

abbrev pub ax25_callsign_bytes : ℕ
ax25_callsign_bytes = 6

abbrev pub ax25_control_and_pid_bytes : ℕ
ax25_control_and_pid_bytes = 2

abbrev pub min_frame_bytes : ℕ
min_frame_bytes = ax25_address_bytes * 2 + 1

pub decode_address : List ℕ → Result (List ℕ)
decode_address address_bytes = do
  let shifted = map (λ b. shr b 1) (take ax25_callsign_bytes address_bytes)
  text ← decode_ascii shifted
  ok (strip text)

-- chunk[-1] & AX25_ADDRESS_EXTENSION_BIT
abbrev pub is_last_address : List ℕ → Bool
is_last_address chunk = low_bits (get_or chunk 6 0) 1 == 1

-- The loop over the address fields, on fuel: the addresses, the index behind them, and whether the
-- last field was found. Each round moves `i` on by seven; a loop that has used up its rounds is unfinished.
pub address_loop : ℕ → List ℕ → ℕ → List (List ℕ) → Result (List (List ℕ) × ℕ × Bool)
address_loop zero buffer i addresses = raise unfinished
address_loop (suc fuel) buffer i addresses = elim (leb (i + ax25_address_bytes) (length buffer)) [
  | false ↦ ok (addresses, i, false)
  | true ↦ decode_address (slice buffer i (i + ax25_address_bytes)) >>= λ address.
      let rest = address_loop fuel buffer (i + ax25_address_bytes) (addresses ++ address ∷ []) in
      if is_last_address (slice buffer i (i + ax25_address_bytes))
      then ok (addresses ++ address ∷ [], i + ax25_address_bytes, true)
      else rest
]

-- raw.raw_bytes[payload_start:-AX25_FCS_BYTES], or raw.raw_bytes[payload_start:] without a trailer
abbrev pub payload_of : List ℕ → ℕ → Bool → List ℕ
payload_of raw_bytes start has_fcs =
    if has_fcs
    then slice raw_bytes start (length raw_bytes - ax25_fcs_bytes)
    else drop start raw_bytes

-- From the address loop's outcome to the frame: rejected unless the last field was found and there
-- are two addresses at least.
pub build_frame : RawFrame → Bool → List (List ℕ) × ℕ × Bool → Option DecodedFrame
build_frame raw has_fcs (dest ∷ src ∷ digipeaters, i, true) = some (record {
  norad_id = raw.norad_id;
  received_at = raw.received_at;
  src_callsign = src;
  dest_callsign = dest;
  payload = payload_of raw.raw_bytes (i + ax25_control_and_pid_bytes) has_fcs;
  crc_valid = true;
})
build_frame raw has_fcs _ = none

module _ (calc : List ℕ → ℕ) where
  pub decode_ax25 : RawFrame → Bool → Result (Option DecodedFrame)
  unfolding build_frame
  decode_ax25 raw has_fcs =
      if ltb (length raw.raw_bytes) min_frame_bytes
      then ok none
      else if has_fcs && not (verify_fcs calc raw.raw_bytes)
      then ok none
      else do
        scan ← address_loop (suc (length raw.raw_bytes)) raw.raw_bytes 0 []
        ok (build_frame raw has_fcs scan)

  pub decode_frame : Option RawFrame → Bool → Result (Option DecodedFrame)
  unfolding decode_ax25
  decode_frame none has_fcs = ok none
  decode_frame (some raw) has_fcs =
      if any (λ n. n == raw.norad_id) cw_norad_ids
      then ok (decode_cw_beacon raw)
      else decode_ax25 raw has_fcs
