-- ===== src/Demux/Specs/Cape1.antt =====
-- leo_telemetry/demux/specs/cape1_31130.py
use leo_telemetry.Base.{
  ℕ, ◌-◌, List, [], ◌∷◌, true, false, not, ◌||◌, ◌&&◌, ltb, leb, ◌==◌, ◌=l=◌, if◌then◌else◌, length,
  get_or, take,
}
use leo_telemetry.Base.Int.{pos}
use leo_telemetry.Base.Result.{Result, ok, raise, value_error, ◌>>=◌}
use leo_telemetry.Float.{FloatOps}
use leo_telemetry.Demux.Common.{parse_ascii_hex, metric, Metrics}

abbrev pub callsign_header : List ℕ
callsign_header = b'K' ∷ b'5' ∷ b'U' ∷ b'S' ∷ b'L' ∷ []

abbrev pub header_len : ℕ
header_len = length callsign_header

abbrev pub offset_pkt_type : ℕ
offset_pkt_type = 5

abbrev pub min_frame_len : ℕ
min_frame_len = 8

module _ (fl : FloatOps) where
  abbrev scale_voltage : fl.F
  scale_voltage = fl.decimal (pos 2) 2

  abbrev scale_panel_current : fl.F
  scale_panel_current = fl.decimal (pos 10) 0

  abbrev unscaled : fl.F
  unscaled = fl.decimal (pos 1) 0

  -- The metrics behind "packet_type", by the packet type's character.
  unfoldable pub fields_of : List ℕ → ℕ → Result (Metrics fl)
  fields_of view pkt_type =
      if pkt_type == b'1'
      then (do
        mpb ← parse_ascii_hex fl view 6 2 false scale_voltage
        hpb ← parse_ascii_hex fl view 8 2 false scale_voltage
        batt ← parse_ascii_hex fl view 10 2 false scale_voltage
        curr ← parse_ascii_hex fl view 14 2 false unscaled
        ok (
            metric fl "mpb_voltage" mpb "V"
            ∷ metric fl "hpb_voltage" hpb "V"
            ∷ metric fl "battery_1_voltage" batt "V"
            ∷ metric fl "battery_1_current_generated" curr "mA"
            ∷ []))
      else if pkt_type == b'2'
      then (do
        batt ← parse_ascii_hex fl view 6 2 true unscaled
        px ← parse_ascii_hex fl view 8 2 true unscaled
        nx ← parse_ascii_hex fl view 10 2 true unscaled
        ok (
            metric fl "temp_battery_1" batt "C"
            ∷ metric fl "temp_px_face" px "C"
            ∷ metric fl "temp_nx_face" nx "C"
            ∷ []))
      else if pkt_type == b'3'
      then (do
        px ← parse_ascii_hex fl view 6 2 false scale_panel_current
        nx ← parse_ascii_hex fl view 8 2 false scale_panel_current
        ok (
            metric fl "panel_px_face_current" px "mA"
            ∷ metric fl "panel_nx_face_current" nx "mA"
            ∷ []))
      else raise value_error

  -- `int` of one ASCII character succeeds on the decimal digits alone.
  unfoldable pub demultiplex_payload : List ℕ → Result (Metrics fl)
  demultiplex_payload payload =
      let pkt_type = get_or payload offset_pkt_type 0 in
      if ltb (length payload) min_frame_len || not (take header_len payload =l= callsign_header)
      then raise value_error
      else if not (leb b'0' pkt_type && leb pkt_type b'9')
      then raise value_error
      else do
        fields ← fields_of payload pkt_type
        ok (metric fl "packet_type" (fl.of_ℤ (pos (pkt_type - b'0'))) "type" ∷ fields)
