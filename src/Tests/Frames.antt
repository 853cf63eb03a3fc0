-- ===== src/Tests/Frames.antt =====
-- leo_telemetry/decode/crc16.py, ax25.py and cw.py
use leo_telemetry.Base.{
  ℕ, ◌≤◌, ◌≡◌, refl, List, [], ◌∷◌, true, false, some, all_bytes, arith, length, codes,
}
use leo_telemetry.Base.Result.{ok, Returns}
use leo_telemetry.Models.{RawFrame}
use leo_telemetry.Chars.{collapse, upper}
use leo_telemetry.Decode.FrameSync.{find_in, find}
use leo_telemetry.Decode.Crc16.{verify_fcs}
use leo_telemetry.Decode.Cw.{cw_payload}
use leo_telemetry.Decode.Cw.Beacon.{IsBeacon, cw_payload-beacon}
use leo_telemetry.Decode.Ax25.{decode_frame}
use leo_telemetry.Decode.Ax25.RoundTrip.{IsTransmission, decode_frame-build}
use leo_telemetry.Decode.Ax25.Totality.{decode_frame-Returns}
use leo_telemetry.Decode.Ax25.Checks.{HasHeader, decode_frame-accepts}
use leo_telemetry.Tests.Data.{
  sum16, ground_station, satellite, digipeater, ui_no_layer_3, info, capture, decoded,
}

IsTransmission-capture : IsTransmission ground_station satellite (digipeater ∷ []) ui_no_layer_3
IsTransmission-capture = record {
  dest_valid = record { fits = omega arith; graphic = refl };
  src_valid = record { fits = omega arith; graphic = refl };
  digipeaters_valid = (record { fits = omega arith; graphic = refl }, tt);
  two_bytes = refl;
}

decode_frame-build_example : decode_frame sum16 (some capture) true ≡ ok (some decoded)
decode_frame-build_example =
    decode_frame-build sum16 ground_station satellite (digipeater ∷ []) ui_no_layer_3 info true
      capture IsTransmission-capture refl refl

decode_frame-accepts_example :
    (15 ≤ length capture.raw_bytes)
    × (true ≡ true → verify_fcs sum16 capture.raw_bytes ≡ true)
    × HasHeader capture.raw_bytes true decoded.payload
    × (decoded.norad_id ≡ capture.norad_id)
    × (decoded.received_at ≡ capture.received_at)
    × (decoded.crc_valid ≡ true)
decode_frame-accepts_example = decode_frame-accepts sum16 capture true decoded refl (
    decode_frame-build sum16 ground_station satellite (digipeater ∷ []) ui_no_layer_3 info true
      capture IsTransmission-capture refl refl)

abbrev garbled : RawFrame
garbled = record capture {
  raw_bytes = 255 ∷ 0 ∷ 254 ∷ 130 ∷ 1 ∷ 2 ∷ 3 ∷ 4 ∷ 5 ∷ 6 ∷ 7 ∷ 8 ∷ 9 ∷ 10 ∷ 11 ∷ 12 ∷ [];
}

decode_frame-Returns_example : Returns (decode_frame sum16 (some garbled) false)
decode_frame-Returns_example =
    decode_frame-Returns sum16 garbled false (all_bytes garbled.raw_bytes refl)

abbrev beacon : List ℕ
beacon = codes "K5USL1A0F"

beacon-IsBeacon : IsBeacon beacon
beacon-IsBeacon = record {
  packet_type = b'1';
  fields = codes "A0F";
  layout = refl;
  known_type = refl;
  hex = refl;
  two_chars = omega arith;
}

cw_payload-beacon_example : cw_payload (codes "de k5usl 1a0f sk") ≡ some beacon
unfolding find find_in collapse upper
cw_payload-beacon_example =
    cw_payload-beacon (codes "de k5usl 1a0f sk") (codes "DE") beacon (codes "SK") refl refl refl
      beacon-IsBeacon refl
