-- ===== src/Demux/Specs/Layouts/Cp16Beacon.antt =====
-- leo_telemetry/demux/specs/cp16_68458.py against a satellite that packs its values.
use leo_telemetry.Base.{
  Bool, low_bits, shr, ℕ, ◌+◌, ◌*◌, ◌^◌, ◌≤◌, ◌<◌, ◌≡◌, refl, ap, List, [], ◌∷◌, ◌++◌, arith,
  length, drop, length-append, length-drop, ltb, ◌==◌, ==_iff, false, true, le→ltb, if◌then◌else◌,
}
use leo_telemetry.Base.Result.{ok}
use leo_telemetry.Float.{FloatOps}
use leo_telemetry.Demux.Common.{big, unpack_from_view, raw_metric}
use leo_telemetry.Demux.Common.Packing.{packed, length-pack, unpack_from_view-packed, drop_next}
use leo_telemetry.Demux.Specs.Cp16 as Cp16
use leo_telemetry.Demux.Specs.Cp16.{temps_struct, volt_struct, cpu_struct, dir_struct, pkts_struct}

-- The values of a CP16 beacon.
pub record Cp16Values : Type 0 where
  pub daughter_temp : ℕ
  pub payload_temp : ℕ
  pub bus_volt : ℕ
  pub cpu_time : ℕ
  pub dir_free : ℕ
  pub is_kb : Bool
  pub rx_pkts : ℕ

-- Bit 31 is the unit of the storage.
abbrev pub dir_word : ℕ → Bool → ℕ
dir_word free true = free + 2 ^ 31
dir_word free false = free

-- The widths that the layout has for them.
abbrev pub IsInRange : Cp16Values → Type 0
IsInRange v =
    (v.daughter_temp < 2 ^ 8)
    × (v.payload_temp < 2 ^ 8)
    × (v.bus_volt < 2 ^ 8)
    × (v.cpu_time < 2 ^ 32)
    × (v.dir_free < 2 ^ 31)
    × (v.rx_pkts < 2 ^ 16)

-- The bytes that the spec skips.
pub record Filler : Type 0 where
  pub header : List ℕ
  pub before_volt : List ℕ
  pub before_cpu : List ℕ
  pub before_dir : List ℕ
  pub before_pkts : List ℕ
  pub after : List ℕ

abbrev pub HasWidths : Filler → Type 0
HasWidths f =
    (length f.header ≡ 29)
    × (length f.before_volt ≡ 4)
    × (length f.before_cpu ≡ 3)
    × (length f.before_dir ≡ 20)
    × (length f.before_pkts ≡ 12)

-- The parts of the data, from each field on.
abbrev from_pkts : Filler → Cp16Values → List ℕ
from_pkts f v = packed pkts_struct (v.rx_pkts ∷ []) ++ f.after

abbrev from_dir : Filler → Cp16Values → List ℕ
from_dir f v =
    packed dir_struct (dir_word v.dir_free v.is_kb ∷ []) ++ (f.before_pkts ++ from_pkts f v)

abbrev from_cpu : Filler → Cp16Values → List ℕ
from_cpu f v = packed cpu_struct (v.cpu_time ∷ []) ++ (f.before_dir ++ from_dir f v)

abbrev from_volt : Filler → Cp16Values → List ℕ
from_volt f v = packed volt_struct (v.bus_volt ∷ []) ++ (f.before_cpu ++ from_cpu f v)

abbrev pub cp16_data : Filler → Cp16Values → List ℕ
cp16_data f v =
    packed temps_struct (v.daughter_temp ∷ v.payload_temp ∷ []) ++ (f.before_volt ++ from_volt f v)

dir_word_bound : (free : ℕ) (kb : Bool) → free < 2 ^ 31 → dir_word free kb < 2 ^ 32
dir_word_bound free true h = omega (arith, h)
dir_word_bound free false h = omega (arith, h)

cp16_unpacked :
    (f : Filler) (v : Cp16Values)
    → HasWidths f
    → IsInRange v
    → let body = cp16_data f v in
      (52 ≤ length body)
      × (unpack_from_view temps_struct body 0 ≡ ok (v.daughter_temp ∷ v.payload_temp ∷ []))
      × (unpack_from_view volt_struct body 6 ≡ ok (v.bus_volt ∷ []))
      × (unpack_from_view cpu_struct body 10 ≡ ok (v.cpu_time ∷ []))
      × (unpack_from_view dir_struct body 34 ≡ ok (dir_word v.dir_free v.is_kb ∷ []))
      × (unpack_from_view pkts_struct body 50 ≡ ok (v.rx_pkts ∷ []))
cp16_unpacked f v (h_header, h_volt, h_cpu, h_dir, h_pkts)
      (r_a, r_b, r_volt, r_cpu, r_dir, r_pkts) =
    let body = cp16_data f v in
    let dir = dir_word v.dir_free v.is_kb in
    let r_word = dir_word_bound v.dir_free v.is_kb r_dir in
    let n_temps =
      length-pack big (1 ∷ 1 ∷ []) (v.daughter_temp ∷ v.payload_temp ∷ []) (r_a, (r_b, tt)) in
    let n_volt = length-pack big (1 ∷ []) (v.bus_volt ∷ []) (r_volt, tt) in
    let n_cpu = length-pack big (4 ∷ []) (v.cpu_time ∷ []) (r_cpu, tt) in
    let n_dir = length-pack big (4 ∷ []) (dir ∷ []) (r_word, tt) in
    let n_pkts = length-pack big (2 ∷ []) (v.rx_pkts ∷ []) (r_pkts, tt) in
    let temps = packed temps_struct (v.daughter_temp ∷ v.payload_temp ∷ []) in
    let volt = packed volt_struct (v.bus_volt ∷ []) in
    let cpu = packed cpu_struct (v.cpu_time ∷ []) in
    let word = packed dir_struct (dir ∷ []) in
    let pkts = packed pkts_struct (v.rx_pkts ∷ []) in
    let at_2 = drop_next body temps (f.before_volt ++ from_volt f v) 0 2 refl n_temps in
    let at_volt = drop_next body f.before_volt (from_volt f v) 2 4 at_2 h_volt in
    let at_7 = drop_next body volt (f.before_cpu ++ from_cpu f v) 6 1 at_volt n_volt in
    let at_cpu = drop_next body f.before_cpu (from_cpu f v) 7 3 at_7 h_cpu in
    let at_14 = drop_next body cpu (f.before_dir ++ from_dir f v) 10 4 at_cpu n_cpu in
    let at_dir = drop_next body f.before_dir (from_dir f v) 14 20 at_14 h_dir in
    let at_38 = drop_next body word (f.before_pkts ++ from_pkts f v) 34 4 at_dir n_dir in
    let at_pkts = drop_next body f.before_pkts (from_pkts f v) 38 12 at_38 h_pkts in
    let long : 52 ≤ length body =
      omega (arith, length-drop 50 body, ap length at_pkts, length-append pkts f.after, n_pkts) in
    (
      long,
      unpack_from_view-packed temps_struct (v.daughter_temp ∷ v.payload_temp ∷ []) body
          (f.before_volt ++ from_volt f v) 0 (r_a, (r_b, tt)) (omega (arith, long)) refl,
      unpack_from_view-packed volt_struct (v.bus_volt ∷ []) body (f.before_cpu ++ from_cpu f v) 6
          (r_volt, tt) (omega (arith, long)) at_volt,
      unpack_from_view-packed cpu_struct (v.cpu_time ∷ []) body (f.before_dir ++ from_dir f v) 10
          (r_cpu, tt) (omega (arith, long)) at_cpu,
      unpack_from_view-packed dir_struct (dir ∷ []) body (f.before_pkts ++ from_pkts f v) 34
          (r_word, tt) (omega (arith, long)) at_dir,
      unpack_from_view-packed pkts_struct (v.rx_pkts ∷ []) body f.after 50 (r_pkts, tt)
          (omega (arith, long)) at_pkts,
    )

-- The unit and the value come out of the word again.
dir_word-parts :
    (free : ℕ) (kb : Bool)
    → free < 2 ^ 31
    → (low_bits (dir_word free kb) 31 ≡ free) × ((low_bits (shr (dir_word free kb) 31) 1 == 1) ≡ kb)
dir_word-parts free true h = (omega (arith, h), (==_iff _ 1).1 (omega (arith, h)))
dir_word-parts free false h =
    let none : low_bits (shr free 31) 1 ≡ 0 = omega (arith, h) in
    (omega (arith, h), ap (λ n. n == 1) none)

module _ (fl : FloatOps) where
  -- A CP16 payload is read as the values that the satellite packed into it, whatever the bytes of the
  -- header and between the fields are: the three raw bytes, the CPU time in 32 bits, the free storage in
  -- 31 bits with its unit in the bit above them, and the packet count, which is reported times 65536.
  -- The values fit their widths, and the skipped bytes are as many as the layout says.
  pub cp16_data-read :
      (f : Filler) (v : Cp16Values)
      → HasWidths f
      → IsInRange v
      → Cp16.demultiplex_payload fl (f.header ++ cp16_data f v)
        ≡ ok (
            raw_metric fl "daughter_a_temp_raw" v.daughter_temp "raw"
            ∷ raw_metric fl "payload_3v3_temp_raw" v.payload_temp "raw"
            ∷ raw_metric fl "bus_3v3_volt_raw" v.bus_volt "raw"
            ∷ raw_metric fl "user_cpu_time" v.cpu_time "s"
            ∷ raw_metric fl "dir_data_free_value" v.dir_free (if v.is_kb then "KB" else "bytes")
            ∷ raw_metric fl "comms_rx_packets" (v.rx_pkts * 65536) "count"
            ∷ [])
  unfolding Cp16.demultiplex_payload
  cp16_data-read f v h r =
      let body = cp16_data f v in
      let (long, temps, volt, cpu, dir, pkts) = cp16_unpacked f v h r in
      let (value, unit) = dir_word-parts v.dir_free v.is_kb r.4 in
      let stripped : drop 29 (f.header ++ body) ≡ body =
        drop_next (f.header ++ body) f.header body 0 29 refl h.0 in
      let enough : ltb (length (f.header ++ body)) 81 ≡ false =
        le→ltb _ _ (omega (arith, long, length-append f.header body, h.0)) in
      rw (enough, stripped, temps, volt, cpu, dir, pkts, value, unit) refl
