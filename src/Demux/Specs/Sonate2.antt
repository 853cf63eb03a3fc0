-- ===== src/Demux/Specs/Sonate2.antt =====
-- leo_telemetry/demux/specs/sonate2_59112.py. Shifts and masks are products, quotients and
-- remainders; a disjunction of disjoint bits is a sum.
pub mod Slice
use Prim.Native.String.{◌++◌ as str_append}
use leo_telemetry.Base.{
  ℕ, zero, suc, ◌+◌, ◌-◌, ◌*◌, ◌/◌, ◌%◌, ◌^◌, List, [], ◌∷◌, ◌++◌, not, Option, none, some, String,
  ltb, ◌==◌, if◌then◌else◌, length, get_or, drop, any, shr, low_bits,
}
use leo_telemetry.Base.Int.{pos, neg}
use leo_telemetry.Base.Result.{Result, ok, raise, value_error, ◌>>=◌, traverse}
use leo_telemetry.Float.{FloatOps}
use leo_telemetry.Models.{TelemetryMetric}
use leo_telemetry.Demux.Common.{index, metric, Metrics}

abbrev pub tf_header_len : ℕ
tf_header_len = 6

abbrev pub sp_header_len : ℕ
sp_header_len = 6

abbrev pub secondary_header_len : ℕ
secondary_header_len = 5

abbrev pub min_tf_len : ℕ
min_tf_len = tf_header_len + sp_header_len + secondary_header_len + 2

abbrev pub apid_std_hk : ℕ
apid_std_hk = 100

abbrev pub apid_mem_ops_hk : ℕ
apid_mem_ops_hk = 105

-- The loop of `_extract_bits`: the rounds left, the next bit, and the value so far.
unfoldable pub extract_loop : ℕ → List ℕ → ℕ → ℕ → Result ℕ
extract_loop zero bytes bit value = ok value
extract_loop (suc rounds) bytes bit value = index bytes (bit / 8) >>= λ b.
    extract_loop rounds bytes (bit + 1) (value * 2 + low_bits (shr b (7 - bit % 8)) 1)

unfoldable pub extract_bits : List ℕ → ℕ → ℕ → Result ℕ
unfolding extract_loop
extract_bits bytes bit_pos bit_len =
    if ltb (length bytes) ((bit_pos + bit_len + 7) / 8)
    then raise value_error
    else extract_loop bit_len bytes bit_pos 0

-- Where a field stands and what its value means; the calibration is over the floats.
pub record Field (F : Type 0) : Type 0 where
  pub name : String
  pub unit : String
  pub bit_pos : ℕ
  pub bit_len : ℕ
  pub c0 : F
  pub c1 : F
  pub c2 : F
  pub scale : F

-- The virtual channels on which an APID of the table is expected.
abbrev pub std_hk_vcids : List ℕ
std_hk_vcids = 0 ∷ 2 ∷ []

abbrev pub ext_hk_vcids : List ℕ
ext_hk_vcids = 1 ∷ 3 ∷ []

-- _APID_VCIDS, of an APID that has fields
abbrev pub apid_vcids : ℕ → List ℕ
apid_vcids apid = if apid == apid_std_hk then std_hk_vcids else ext_hk_vcids

module _ (fl : FloatOps) where
  abbrev whole : ℕ → fl.F
  whole n = fl.decimal (pos n) 0

  abbrev raw_field : String → String → ℕ → ℕ → Field fl.F
  raw_field name unit bit_pos bit_len = record {
    name = name;
    unit = unit;
    bit_pos = bit_pos;
    bit_len = bit_len;
    c0 = whole 0;
    c1 = whole 1;
    c2 = whole 0;
    scale = whole 1;
  }

  abbrev linear : String → String → ℕ → fl.F → fl.F → fl.F → fl.F → Field fl.F
  linear name unit bit_pos c0 c1 c2 scale = record {
    name = name;
    unit = unit;
    bit_pos = bit_pos;
    bit_len = 8;
    c0 = c0;
    c1 = c1;
    c2 = c2;
    scale = scale;
  }

  unfoldable pub std_hk_fields : List (Field fl.F)
  std_hk_fields =
      raw_field "system_uptime" "s" 0 24
      ∷ linear "temp_vhf1" "C" 299 (fl.decimal (neg (pos 128)) 0) (whole 1) (whole 0) (whole 1)
      ∷ linear "temp_uhf1" "C" 402 (fl.decimal (neg (pos 128)) 0) (whole 1) (whole 0) (whole 1)
      ∷ linear "battery_5v1_voltage" "V" 513 (whole 0) (fl.decimal (pos 20070588) 9) (whole 0)
          (whole 1)
      ∷ linear "battery_5v1_current" "mA" 521 (fl.decimal (neg (pos 7641924759)) 9)
          (fl.decimal (pos 59702537) 9) (whole 0) (whole 1000)
      ∷ linear "bus_5v1_voltage" "V" 545 (whole 0) (fl.decimal (pos 24530719) 9) (whole 0) (whole 1)
      ∷ linear "battery_5v2_voltage" "V" 577 (whole 0) (fl.decimal (pos 19882353) 9) (whole 0)
          (whole 1)
      ∷ linear "temp_battery_5v1" "C" 625 (fl.decimal (neg (pos 4723889465)) 8)
          (fl.decimal (pos 548218308) 9) (fl.decimal (pos 195267) 10) (whole 1)
      ∷ linear "temp_battery_12v1" "C" 633 (fl.decimal (neg (pos 4391789355)) 8)
          (fl.decimal (pos 534063389) 9) (fl.decimal (pos 128733) 10) (whole 1)
      ∷ linear "battery_12v1_voltage" "V" 713 (whole 0) (fl.decimal (pos 19764706) 9) (whole 0)
          (whole 1)
      ∷ linear "bus_12v1_voltage" "V" 745 (whole 0) (fl.decimal (pos 51930796) 9) (whole 0)
          (whole 1)
      ∷ raw_field "solar_reg_12v1_state" "state" 825 2
      ∷ []

  -- The five fields of one OBDH channel, given the prefix of their names.
  unfoldable pub mem_ops_channel_fields : ℕ → String → List (Field fl.F)
  mem_ops_channel_fields channel prefix =
      let base = (channel - 1) * 20 in
      raw_field (str_append prefix "_available") "flag" base 1
      ∷ raw_field (str_append prefix "_state") "state" (base + 1) 3
      ∷ linear (str_append prefix "_progress") "%" (base + 4) (whole 0)
          (fl.decimal (pos 3921568627) 10) (whole 0) (whole 1)
      ∷ raw_field (str_append prefix "_error_code") "state" (base + 12) 4
      ∷ raw_field (str_append prefix "_error_count") "count" (base + 16) 4
      ∷ []

  unfoldable pub mem_ops_hk_fields : List (Field fl.F)
  unfolding mem_ops_channel_fields
  mem_ops_hk_fields =
      mem_ops_channel_fields 1 "obdh1_mem_ops"
      ++ (mem_ops_channel_fields 2 "obdh2_mem_ops"
          ++ (mem_ops_channel_fields 3 "obdh3_mem_ops" ++ mem_ops_channel_fields 4 "obdh4_mem_ops"))

  -- _APID_FIELDS.get(apid)
  unfoldable pub apid_fields : ℕ → Option (List (Field fl.F))
  apid_fields apid =
      if apid == apid_std_hk
      then some std_hk_fields
      else if apid == apid_mem_ops_hk
      then some mem_ops_hk_fields
      else none

  -- (c0 + c1 * x + c2 * x * x) * scale
  unfoldable pub calibrate : Field fl.F → fl.F → fl.F
  calibrate f x = fl.mul (fl.add (fl.add f.c0 (fl.mul f.c1 x)) (fl.mul (fl.mul f.c2 x) x)) f.scale

  unfoldable pub decode_field : List ℕ → Field fl.F → Result (TelemetryMetric fl.F)
  decode_field bytes f = do
    n ← extract_bits bytes f.bit_pos f.bit_len
    ok (metric fl f.name (calibrate f (fl.of_ℤ (pos n))) f.unit)

  unfoldable pub decode_fields : List ℕ → List (Field fl.F) → Result (Metrics fl)
  decode_fields bytes = traverse (decode_field bytes)

  -- What is read of the data of a space packet, by its APID and the virtual channel of its frame.
  unfoldable pub read_fields : ℕ → ℕ → List ℕ → Result (Metrics fl)
  unfolding decode_fields apid_fields
  read_fields vcid apid bytes = elim (apid_fields apid) [
    | none ↦ raise value_error
    | some fields ↦
        if not (any (λ v. v == vcid) (apid_vcids apid))
        then raise value_error
        else decode_fields bytes fields
  ]

  -- What is read of the space packet `sp`.
  unfoldable pub read_packet : ℕ → List ℕ → Result (Metrics fl)
  unfolding read_fields
  read_packet vcid sp = do
    b0 ← index sp 0
    b1 ← index sp 1
    read_fields vcid (low_bits b0 3 * 2 ^ 8 + b1) (drop (sp_header_len + secondary_header_len) sp)

  unfoldable pub demultiplex_payload : List ℕ → Result (Metrics fl)
  unfolding read_packet
  demultiplex_payload view = if ltb (length view) min_tf_len then raise value_error else do
    b1 ← index view 1
    b4 ← index view 4
    b5 ← index view 5
    let packet_start = tf_header_len + (low_bits b4 3 * 2 ^ 8 + b5)
    if ltb (length view) (packet_start + sp_header_len)
        then raise value_error
        else read_packet (low_bits (shr b1 1) 3) (drop packet_start view)
