-- ===== src/Demux/Specs/Cp16.antt =====
-- leo_telemetry/demux/specs/cp16_68458.py. The unit flag is bit 31 of the storage word, and the value
-- its lower 31 bits; the shift of the packet count is a product.
use leo_telemetry.Base.{
  ℕ, ◌+◌, ◌*◌, ◌^◌, List, [], ◌∷◌, ltb, ◌==◌, if◌then◌else◌, length, get_or, drop, shr, low_bits,
}
use leo_telemetry.Base.Result.{Result, ok, raise, value_error, ◌>>=◌}
use leo_telemetry.Float.{FloatOps}
use leo_telemetry.Demux.Common.{Struct, big, size, unpack_from_view, raw_metric, Metrics}

abbrev pub header_len : ℕ
header_len = 29

abbrev pub temps_struct : Struct
temps_struct = record { order = big; widths = 1 ∷ 1 ∷ [] }

abbrev pub volt_struct : Struct
volt_struct = record { order = big; widths = 1 ∷ [] }

abbrev pub cpu_struct : Struct
cpu_struct = record { order = big; widths = 4 ∷ [] }

abbrev pub dir_struct : Struct
dir_struct = record { order = big; widths = 4 ∷ [] }

abbrev pub pkts_struct : Struct
pkts_struct = record { order = big; widths = 2 ∷ [] }

abbrev pub offset_rx_pkts : ℕ
offset_rx_pkts = 50

abbrev pub min_payload_len : ℕ
min_payload_len = header_len + (offset_rx_pkts + size pkts_struct)

module _ (fl : FloatOps) where
  unfoldable pub demultiplex_payload : List ℕ → Result (Metrics fl)
  demultiplex_payload payload =
      let data_view = drop header_len payload in
      if ltb (length payload) min_payload_len then raise value_error else do
        temps ← unpack_from_view temps_struct data_view 0
        volt ← unpack_from_view volt_struct data_view 6
        cpu ← unpack_from_view cpu_struct data_view 10
        dir ← unpack_from_view dir_struct data_view 34
        pkts ← unpack_from_view pkts_struct data_view offset_rx_pkts
        ok (
            raw_metric fl "daughter_a_temp_raw" (get_or temps 0 0) "raw"
            ∷ raw_metric fl "payload_3v3_temp_raw" (get_or temps 1 0) "raw"
            ∷ raw_metric fl "bus_3v3_volt_raw" (get_or volt 0 0) "raw"
            ∷ raw_metric fl "user_cpu_time" (get_or cpu 0 0) "s"
            ∷ raw_metric fl "dir_data_free_value" (low_bits (get_or dir 0 0) 31)
                (if low_bits (shr (get_or dir 0 0) 31) 1 == 1 then "KB" else "bytes")
            ∷ raw_metric fl "comms_rx_packets" (get_or pkts 0 0 * 2 ^ 16) "count"
            ∷ [])
