-- ===== src/Demux/Specs/Oresat.antt =====
-- leo_telemetry/demux/specs/oresat_60525.py
use leo_telemetry.Base.{ℕ, ◌+◌, List, [], ◌∷◌, ltb, ◌==◌, if◌then◌else◌, length, get_or, drop}
use leo_telemetry.Base.Result.{Result, ok, raise, value_error, ◌>>=◌}
use leo_telemetry.Float.{FloatOps}
use leo_telemetry.Demux.Common.{Struct, little, size, unpack_from_view, raw_metric, Metrics}

abbrev pub pid_header_len : ℕ
pid_header_len = 1

abbrev pub raw_frame_len_with_pid : ℕ
raw_frame_len_with_pid = 217

abbrev pub offset_sys_metrics : ℕ
offset_sys_metrics = 7

-- "<IIHB"
abbrev pub sys_struct : Struct
sys_struct = record { order = little; widths = 4 ∷ 4 ∷ 2 ∷ 1 ∷ [] }

abbrev pub offset_batt_metrics : ℕ
offset_batt_metrics = 49

-- "<HH"
abbrev pub batt_struct : Struct
batt_struct = record { order = little; widths = 2 ∷ 2 ∷ [] }

abbrev pub min_data_len : ℕ
min_data_len = offset_batt_metrics + size batt_struct

-- The optional PID byte taken off.
abbrev pub strip_pid : List ℕ → List ℕ
strip_pid view = if length view == raw_frame_len_with_pid then drop pid_header_len view else view

module _ (fl : FloatOps) where
  unfoldable pub demultiplex_payload : List ℕ → Result (Metrics fl)
  demultiplex_payload [] = raise value_error
  demultiplex_payload (b ∷ payload) =
      let data_view = strip_pid (b ∷ payload) in
      if ltb (length data_view) min_data_len then raise value_error else do
        sys ← unpack_from_view sys_struct data_view offset_sys_metrics
        batt ← unpack_from_view batt_struct data_view offset_batt_metrics
        ok (
            raw_metric fl "system_uptime" (get_or sys 0 0) "s"
            ∷ raw_metric fl "system_unix_time" (get_or sys 1 0) "s"
            ∷ raw_metric fl "system_power_cycles" (get_or sys 2 0) "count"
            ∷ raw_metric fl "system_storage_percent" (get_or sys 3 0) "%"
            ∷ raw_metric fl "battery_1_pack_1_vbatt" (get_or batt 0 0) "mV"
            ∷ raw_metric fl "battery_1_pack_1_vcell" (get_or batt 1 0) "mV"
            ∷ [])
