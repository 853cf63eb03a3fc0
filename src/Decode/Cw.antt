-- ===== src/Decode/Cw.antt =====
-- leo_telemetry/decode/cw.py: the CAPE-1 beacon in a Morse transcription.
pub mod Beacon
use leo_telemetry.Base.{
  ℕ, zero, suc, ◌+◌, List, [], ◌∷◌, ◌++◌, map, Bool, true, false, not, ◌&&◌, ◌||◌, Option, none,
  some, ltb, leb, ◌==◌, if◌then◌else◌, length, get_or, take, drop, codes,
}
use leo_telemetry.Base.Result.{Result, ok, raise}
use leo_telemetry.Chars.{decode_ascii, upper, collapse}
use leo_telemetry.Models.{RawFrame, DecodedFrame}
use leo_telemetry.Decode.FrameSync.{find}

abbrev pub cw_norad_ids : List ℕ
cw_norad_ids = 31130 ∷ []

abbrev pub cw_callsign : List ℕ
cw_callsign = b'K' ∷ b'5' ∷ b'U' ∷ b'S' ∷ b'L' ∷ []

abbrev pub cw_dest_callsign : List ℕ
cw_dest_callsign = b'C' ∷ b'Q' ∷ []

-- CW_PACKET_TYPES
abbrev pub is_packet_type : ℕ → Bool
is_packet_type c = c == b'1' || c == b'2' || c == b'3'

-- CW_HEX_DIGITS, string.hexdigits.upper()
abbrev pub is_hex_digit : ℕ → Bool
is_hex_digit c = (leb b'0' c && leb c b'9') || (leb b'A' c && leb c b'F')

abbrev pub cw_min_hex_chars : ℕ
cw_min_hex_chars = 2

abbrev pub cw_min_beacon_chars : ℕ
cw_min_beacon_chars = length cw_callsign + 1 + cw_min_hex_chars

-- The `while` loop that counts the hex characters; `fields` is the rest from index `hex_run` on.
pub hex_run_from : List ℕ → ℕ → ℕ
hex_run_from [] hex_run = hex_run
hex_run_from (c ∷ fields) hex_run =
    let rest = hex_run_from fields (hex_run + 1) in if is_hex_digit c then rest else hex_run

pub beacon_frame : RawFrame → List ℕ → DecodedFrame
beacon_frame raw payload = record {
  norad_id = raw.norad_id;
  received_at = raw.received_at;
  src_callsign = cw_callsign;
  dest_callsign = cw_dest_callsign;
  payload = payload;
  crc_valid = true;
}

-- From the normalized text behind the marker to the payload.
pub beacon_payload : List ℕ → Option (List ℕ)
unfolding hex_run_from
beacon_payload beacon =
    let packet_type = get_or beacon (length cw_callsign) 0 in
    let fields = drop (length cw_callsign + 1) beacon in
    let hex_run = hex_run_from fields 0 in
    if ltb (length beacon) cw_min_beacon_chars
    then none
    else if not (is_packet_type packet_type)
    then none
    else if ltb hex_run cw_min_hex_chars
    then none
    else some (cw_callsign ++ packet_type ∷ take hex_run fields)

abbrev pub normalize : List ℕ → List ℕ
normalize text = collapse (map upper text)

pub cw_payload : List ℕ → Option (List ℕ)
unfolding beacon_payload
cw_payload raw_bytes = elim (decode_ascii raw_bytes) [
  | raise e ↦ none
  | ok text ↦ elim (find cw_callsign (normalize text) 0) [
    | none ↦ none
    | some marker ↦ beacon_payload (drop marker (normalize text))
  ]
]

pub decode_cw_beacon : RawFrame → Option DecodedFrame
unfolding cw_payload beacon_frame
decode_cw_beacon raw = elim (cw_payload raw.raw_bytes) [
  | none ↦ none
  | some payload ↦ some (beacon_frame raw payload)
]
