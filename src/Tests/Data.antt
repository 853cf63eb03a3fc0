-- ===== src/Tests/Data.antt =====
-- The inputs of the tests: a checksum, captures, an integer arithmetic in the place of the floats, and a
-- Redis server that is its contents.
use leo_telemetry.Timestamps.{utc}
use leo_telemetry.Base.{ℕ, ◌+◌, ◌%◌, List, [], ◌∷◌, true, false, none, String, codes}
use leo_telemetry.Base.Int.{ℤ, pos, negsuc, neg, lt_ℤ, le_ℤ}
use leo_telemetry.Float.{FloatOps}
use leo_telemetry.Models.{RawFrame, DecodedFrame, TelemetryReading, AudioObservation}
use leo_telemetry.Decode.Ax25.Encode.{Address, build_ax25_frame, path_bytes}
use leo_telemetry.Redis.View.{Blob, Contents, update}

-- A digest that is the bytes themselves.
abbrev pub unhashed : List ℕ → List ℕ
unhashed bytes = bytes

abbrev pub sum16 : List ℕ → ℕ
sum16 [] = 0
sum16 (b ∷ bytes) = (b + sum16 bytes) % 65536

-- "floats" that are integers, which forget every fraction.
abbrev pub integers : FloatOps
integers = record {
  F = ℤ;
  of_ℤ = λ n. n;
  decimal = λ n k. n;
  add = λ a b. a;
  sub = λ a b. a;
  mul = λ a b. a;
  div = λ a b. a;
  neg = λ a. neg a;
  le = le_ℤ;
  lt = lt_ℤ;
  is_finite = λ a. true;
  sum = λ xs. pos 0;
}

abbrev pub ground_station : Address
ground_station = record { callsign = codes "CQ"; ssid = 0 }

abbrev pub satellite : Address
satellite = record { callsign = codes "ORESAT"; ssid = 11 }

abbrev pub digipeater : Address
digipeater = record { callsign = codes "W1AW"; ssid = 1 }

abbrev pub ui_no_layer_3 : List ℕ
ui_no_layer_3 = 3 ∷ 240 ∷ []

abbrev pub info : List ℕ
info = codes "hello"

abbrev pub capture : RawFrame
capture = record {
  norad_id = 60525;
  observation_id = pos 7;
  observer_station_id = negsuc 0;
  received_at = utc 100;
  raw_bytes =
      build_ax25_frame sum16 (path_bytes ground_station (satellite ∷ digipeater ∷ [])) ui_no_layer_3
        info true;
}

abbrev pub decoded : DecodedFrame
decoded = record {
  norad_id = 60525;
  received_at = utc 100;
  src_callsign = codes "ORESAT";
  dest_callsign = codes "CQ";
  payload = info;
  crc_valid = true;
}

-- An APRS status report, and one of an unknown type.
abbrev pub status : DecodedFrame
status = record {
  norad_id = 25544;
  received_at = utc 100;
  src_callsign = codes "RS0ISS";
  dest_callsign = codes "CQ";
  payload = codes ">ok";
  crc_valid = true;
}

abbrev pub unknown_type : DecodedFrame
unknown_type = record status { payload = codes "?ok" }

abbrev pub bad_checksum : DecodedFrame
bad_checksum = record status { crc_valid = false }

abbrev pub status_reading : TelemetryReading ℤ
status_reading = record {
  norad_id = 25544;
  received_at = utc 100;
  metrics =
      record { name = "aprs_packet_type"; value = pos 3; unit = "type" }
      ∷ record { name = "aprs_info_length"; value = pos 3; unit = "bytes" }
      ∷ [];
}

abbrev pub recording : AudioObservation
recording = record {
  norad_id = 25544;
  observation_id = 9;
  station_id = 2;
  observed_at = utc 50;
  payload_url = "https://example.org/9.ogg";
}

-- A server with one list, and nothing else.
abbrev pub with_list : String → List (Blob ℤ) → Contents ℤ
with_list key bs = record {
  lists = update (λ k. []) key bs;
  sets = λ k. [];
  ttls = λ k. none;
  hashes = λ k. [];
}
