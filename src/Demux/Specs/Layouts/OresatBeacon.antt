-- ===== src/Demux/Specs/Layouts/OresatBeacon.antt =====
-- leo_telemetry/demux/specs/oresat_60525.py against a satellite that packs its values.
use leo_telemetry.Base.{
  ℕ, ◌≤◌, ◌≡◌, ◌≢◌, ◌⊎◌, inl, inr, refl, ap, List, [], ◌∷◌, ◌++◌, arith, length, drop,
  length-append, length-drop, ltb, ◌==◌, ==_iff, false, le→ltb, if◌then◌else◌,
}
use leo_telemetry.Base.Result.{ok}
use leo_telemetry.Float.{FloatOps}
use leo_telemetry.Demux.Common.{little, unpack_from_view, raw_metric, Metrics}
use leo_telemetry.Demux.Common.Packing.{
  Fits, packed, length-pack, unpack_from_view-packed, drop_next,
}
use leo_telemetry.Demux.Specs.Oresat as Oresat
use leo_telemetry.Demux.Specs.Oresat.{strip_pid, sys_struct, batt_struct}

≢→== : (a b : ℕ) → a ≢ b → (a == b) ≡ false
≢→== a b h = ground arith

-- An ORESAT beacon's data: what the spec reads stands after 7 bytes, and after 31 more.
abbrev pub oresat_data : List ℕ → List ℕ → List ℕ → List ℕ → List ℕ → List ℕ
oresat_data before sys between batt after =
    before ++ (packed sys_struct sys ++ (between ++ (packed batt_struct batt ++ after)))

-- The payload of a beacon: its data alone, or behind a PID byte.
abbrev pub IsSent : List ℕ → ℕ → List ℕ → Type 0
IsSent body pid payload =
    ((length body ≢ 217) × (payload ≡ body)) ⊎ ((length body ≡ 216) × (payload ≡ pid ∷ body))

IsSent-stripped :
    (body : List ℕ) (pid : ℕ) (payload : List ℕ)
    → 53 ≤ length body
    → IsSent body pid payload
    → (strip_pid payload ≡ body) × (53 ≤ length payload)
IsSent-stripped body pid payload long (inl (other, is)) =
    let differs = ≢→== (length body) 217 other in
    rw is (ap (λ t. if t then drop 1 body else body) differs, long)
IsSent-stripped body pid payload long (inr (size, is)) =
    let equal = (==_iff (length (pid ∷ body)) 217).1 (omega (arith, size)) in
    rw is (ap (λ t. if t then drop 1 (pid ∷ body) else pid ∷ body) equal, omega (arith, long))

module _ (fl : FloatOps) where
  abbrev pub oresat_metrics : ℕ → ℕ → ℕ → ℕ → ℕ → ℕ → Metrics fl
  oresat_metrics uptime unix_time power_cycles storage vbatt vcell =
      raw_metric fl "system_uptime" uptime "s"
      ∷ raw_metric fl "system_unix_time" unix_time "s"
      ∷ raw_metric fl "system_power_cycles" power_cycles "count"
      ∷ raw_metric fl "system_storage_percent" storage "%"
      ∷ raw_metric fl "battery_1_pack_1_vbatt" vbatt "mV"
      ∷ raw_metric fl "battery_1_pack_1_vcell" vcell "mV"
      ∷ []

  oresat_unpacked :
      (before between after : List ℕ) (uptime unix_time power_cycles storage vbatt vcell : ℕ)
      → length before ≡ 7
      → length between ≡ 31
      → Fits sys_struct.widths (uptime ∷ unix_time ∷ power_cycles ∷ storage ∷ [])
      → Fits batt_struct.widths (vbatt ∷ vcell ∷ [])
      → let body =
          oresat_data before
            (uptime ∷ unix_time ∷ power_cycles ∷ storage ∷ [])
            between
            (vbatt ∷ vcell ∷ [])
            after in
        (53 ≤ length body)
        × (unpack_from_view sys_struct body 7
            ≡ ok (uptime ∷ unix_time ∷ power_cycles ∷ storage ∷ []))
        × (unpack_from_view batt_struct body 49 ≡ ok (vbatt ∷ vcell ∷ []))
  oresat_unpacked before between after uptime unix_time power_cycles storage vbatt vcell hb hw fs
        fb =
      let sys = packed sys_struct (uptime ∷ unix_time ∷ power_cycles ∷ storage ∷ []) in
      let batt = packed batt_struct (vbatt ∷ vcell ∷ []) in
      let n_sys =
        length-pack little (4 ∷ 4 ∷ 2 ∷ 1 ∷ []) (uptime ∷ unix_time ∷ power_cycles ∷ storage ∷ [])
          fs in
      let n_batt = length-pack little (2 ∷ 2 ∷ []) (vbatt ∷ vcell ∷ []) fb in
      let body = before ++ (sys ++ (between ++ (batt ++ after))) in
      let at_sys = drop_next body before (sys ++ (between ++ (batt ++ after))) 0 7 refl hb in
      let at_between = drop_next body sys (between ++ (batt ++ after)) 7 11 at_sys n_sys in
      let at_batt = drop_next body between (batt ++ after) 18 31 at_between hw in
      let long : 53 ≤ length body =
        omega (arith, length-drop 49 body, ap length at_batt, length-append batt after, n_batt) in
      (
        long,
        unpack_from_view-packed sys_struct (uptime ∷ unix_time ∷ power_cycles ∷ storage ∷ []) body
            (between ++ (batt ++ after)) 7 fs (omega (arith, long)) at_sys,
        unpack_from_view-packed batt_struct (vbatt ∷ vcell ∷ []) body after 49 fb
            (omega (arith, long)) at_batt,
      )

  -- What the spec makes of a payload, once the PID byte is off.
  oresat_read :
      (payload body : List ℕ) (uptime unix_time power_cycles storage vbatt vcell : ℕ)
      → strip_pid payload ≡ body
      → 53 ≤ length body
      → 53 ≤ length payload
      → unpack_from_view sys_struct body 7 ≡ ok (uptime ∷ unix_time ∷ power_cycles ∷ storage ∷ [])
      → unpack_from_view batt_struct body 49 ≡ ok (vbatt ∷ vcell ∷ [])
      → Oresat.demultiplex_payload fl payload
        ≡ ok (oresat_metrics uptime unix_time power_cycles storage vbatt vcell)
  unfolding Oresat.demultiplex_payload
  oresat_read [] body uptime unix_time power_cycles storage vbatt vcell stripped long some sys
        batt =
      absurd (omega (arith, some))
  oresat_read (b ∷ payload) body uptime unix_time power_cycles storage vbatt vcell stripped long
        some sys batt =
      let enough : ltb (length body) 53 ≡ false = le→ltb _ _ long in
      rw (stripped, enough, sys, batt) refl

  -- An ORESAT payload is read as the values that the satellite packed into it, whatever the other bytes
  -- of the beacon are: uptime and Unix time in 32 bits, power cycles in 16, storage in 8, the two
  -- battery voltages in 16 each. The beacon comes without a PID byte and does not have 217 bytes, or it
  -- has 216 bytes and comes with a PID byte in front. Seven bytes precede the first values, and 31 stand
  -- between them and the voltages.
  pub oresat_data-read :
      (before between after payload : List ℕ)
      (pid uptime unix_time power_cycles storage vbatt vcell : ℕ)
      → length before ≡ 7
      → length between ≡ 31
      → Fits sys_struct.widths (uptime ∷ unix_time ∷ power_cycles ∷ storage ∷ [])
      → Fits batt_struct.widths (vbatt ∷ vcell ∷ [])
      → IsSent
          (oresat_data before
            (uptime ∷ unix_time ∷ power_cycles ∷ storage ∷ [])
            between
            (vbatt ∷ vcell ∷ [])
            after)
          pid
          payload
      → Oresat.demultiplex_payload fl payload
        ≡ ok (oresat_metrics uptime unix_time power_cycles storage vbatt vcell)
  oresat_data-read before between after payload pid uptime unix_time power_cycles storage vbatt
        vcell hb hw fs fb sent =
      let body =
        oresat_data before (uptime ∷ unix_time ∷ power_cycles ∷ storage ∷ []) between
          (vbatt ∷ vcell ∷ []) after in
      let (long, sys, batt) =
        oresat_unpacked before between after uptime unix_time power_cycles storage vbatt vcell hb hw
          fs fb in
      let (stripped, enough) = IsSent-stripped body pid payload long sent in
      oresat_read payload body uptime unix_time power_cycles storage vbatt vcell stripped long
        enough sys batt
