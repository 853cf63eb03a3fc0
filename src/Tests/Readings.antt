-- ===== src/Tests/Readings.antt =====
-- leo_telemetry/demux/demux.py, and the bit fields of demux/specs/sonate2_59112.py
use leo_telemetry.Decode.Cw.Beacon.{IsBeacon, cw_payload_idem}
use leo_telemetry.Demux.Specs.Cape1 as Cape1
use leo_telemetry.Demux.Specs.Layouts.Cape1Beacon.{cape1_fields, cw_payload-read}
use leo_telemetry.Base.{
  codes, ℕ, zero, suc, List, ◌++◌, ◌/◌, ◌%◌, inr, arith, ◌+◌, ◌*◌, ◌^◌, ◌≡◌, ◌↔◌, ◌⊎◌, refl, [],
  ◌∷◌, true, false, none, some,
}
use leo_telemetry.Base.Result.{ok, value_error}
use leo_telemetry.Demux.Specs.Aprs
use leo_telemetry.Demux.Specs.Sonate2.{extract_bits}
use leo_telemetry.Demux.Specs.Sonate2.Slice.{extract_bits-big_endian}
use leo_telemetry.Demux.Specs.Oresat as Oresat
use leo_telemetry.Demux.Specs.Cp16 as Cp16
use leo_telemetry.Demux.Common.{raw_metric, metric}
use leo_telemetry.Demux.Specs.Layouts.OresatBeacon.{oresat_data, oresat_metrics, oresat_data-read}
use leo_telemetry.Demux.Specs.Layouts.Cp16Beacon.{Filler, Cp16Values, cp16_data, cp16_data-read}
use leo_telemetry.Demux.Demultiplex.Answers.{IsReadingOf, demultiplex-outcomes}
use leo_telemetry.Demux.Common.Packing.{pack}
use leo_telemetry.Demux.Common.Numbers.{number_bytes, little_bytes}
use leo_telemetry.Models.{TelemetryReading}
use leo_telemetry.Base.Int.{ℤ, pos}
use leo_telemetry.Demux.Specs.Registry.{get_spec}
use leo_telemetry.Demux.Demultiplex.{demultiplex}
use leo_telemetry.Demux.Demultiplex.Outcomes.{demultiplex-OnlyValueError}
use leo_telemetry.Tests.Data.{integers, status, unknown_type}

demultiplex-OnlyValueError_example : value_error ≡ value_error
unfolding demultiplex get_spec Aprs.demultiplex_payload Aprs.type_code
demultiplex-OnlyValueError_example =
    demultiplex-OnlyValueError integers unknown_type value_error refl

demultiplex-outcomes_example :
    ((demultiplex integers status ≡ ok none) ↔ (
      (status.payload ≡ [])
      ⊎ (status.crc_valid ≡ false)
      ⊎ (get_spec integers status.norad_id ≡ none)))
    × ((reading : TelemetryReading ℤ)
        → (demultiplex integers status ≡ ok (some reading)) ↔ IsReadingOf integers status reading)
demultiplex-outcomes_example = demultiplex-outcomes integers status

extract_bits-big_endian_example :
    extract_bits (165 ∷ 15 ∷ []) 4 6 ≡ ok ((165 * 256 + 15) / 2 ^ 6 % 2 ^ 6)
extract_bits-big_endian_example =
    extract_bits-big_endian (165 ∷ 15 ∷ []) 4 6 (omega arith, (omega arith, tt))

abbrev zeros : ℕ → List ℕ
zeros zero = []
zeros (suc n) = 0 ∷ zeros n

oresat_data-read_example :
    Oresat.demultiplex_payload integers (
      192
      ∷ oresat_data
          (zeros 7)
          (3600 ∷ 1700000000 ∷ 12 ∷ 40 ∷ [])
          (zeros 31)
          (7400 ∷ 3700 ∷ [])
          (zeros 163))
    ≡ ok (oresat_metrics integers 3600 1700000000 12 40 7400 3700)
unfolding pack number_bytes little_bytes
oresat_data-read_example =
    oresat_data-read integers (zeros 7) (zeros 31) (zeros 163)
      (192
        ∷ oresat_data (zeros 7) (3600 ∷ 1700000000 ∷ 12 ∷ 40 ∷ []) (zeros 31) (7400 ∷ 3700 ∷ [])
            (zeros 163))
      192 3600 1700000000 12 40 7400 3700 refl refl
      (omega arith, (omega arith, (omega arith, (omega arith, tt))))
      (omega arith, (omega arith, tt)) (inr (refl, refl))

abbrev filler : Filler
filler = record {
  header = zeros 29;
  before_volt = zeros 4;
  before_cpu = zeros 3;
  before_dir = zeros 20;
  before_pkts = zeros 12;
  after = [];
}

abbrev cp16_values : Cp16Values
cp16_values = record {
  daughter_temp = 20;
  payload_temp = 25;
  bus_volt = 33;
  cpu_time = 86400;
  dir_free = 123456;
  is_kb = true;
  rx_pkts = 77;
}

cp16_data-read_example :
    Cp16.demultiplex_payload integers (zeros 29 ++ cp16_data filler cp16_values)
    ≡ ok (
        raw_metric integers "daughter_a_temp_raw" 20 "raw"
        ∷ raw_metric integers "payload_3v3_temp_raw" 25 "raw"
        ∷ raw_metric integers "bus_3v3_volt_raw" 33 "raw"
        ∷ raw_metric integers "user_cpu_time" 86400 "s"
        ∷ raw_metric integers "dir_data_free_value" 123456 "KB"
        ∷ raw_metric integers "comms_rx_packets" (77 * 65536) "count"
        ∷ [])
cp16_data-read_example =
    cp16_data-read integers filler cp16_values (refl, refl, refl, refl, refl)
      (omega arith, omega arith, omega arith, omega arith, omega arith, omega arith)

abbrev temperatures : List ℕ
temperatures = codes "0AFF7F"

abbrev cape1_payload : List ℕ
cape1_payload = codes "K5USL20AFF7F"

temperatures-IsBeacon : IsBeacon cape1_payload
temperatures-IsBeacon = record {
  packet_type = b'2';
  fields = temperatures;
  layout = refl;
  known_type = refl;
  hex = refl;
  two_chars = omega arith;
}

cw_payload-read_example :
    Cape1.demultiplex_payload integers cape1_payload
    ≡ ok (metric integers "packet_type" (pos 2) "type" ∷ cape1_fields integers b'2' temperatures)
cw_payload-read_example =
    cw_payload-read integers cape1_payload cape1_payload
      (cw_payload_idem cape1_payload temperatures-IsBeacon)
