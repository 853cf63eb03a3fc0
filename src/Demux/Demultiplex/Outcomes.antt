-- ===== src/Demux/Demultiplex/Outcomes.antt =====
-- What `demultiplex` raises, over all specs.
use leo_telemetry.Base.{
  ℕ, ◌≡◌, inl, inr, refl, List, [], ◌∷◌, Bool, true, false, Option, none, some, if◌then◌else◌,
  arith, Option-cases, some_injective, ◌==◌, get_or, drop, Bool-cases, ltb, length, length-drop,
  low_bits, shr, ◌+◌, ◌*◌, ◌^◌, ◌≤◌,
}
use leo_telemetry.Base.Result.{Error, raise, value_error}
use leo_telemetry.Float.{FloatOps}
use leo_telemetry.Models.{DecodedFrame}
use leo_telemetry.Demux.Errors.{
  OnlyValueError, OnlyValueError-ok, OnlyValueError-raise, OnlyValueError-if, OnlyValueError-bind,
  OnlyValueError-traverse, OnlyValueError-unpack_from_view, OnlyValueError-extract_bits,
  OnlyValueError-index, value_errors,
}
use leo_telemetry.Demux.Specs.Oresat
use leo_telemetry.Demux.Specs.Cp16
use leo_telemetry.Demux.Specs.Cape1
use leo_telemetry.Demux.Specs.Sonate2
use leo_telemetry.Demux.Specs.Sonate2.{Field}
use leo_telemetry.Demux.Specs.Aprs
use leo_telemetry.Demux.Specs.Registry.{SpecFunc, get_spec}
use leo_telemetry.Demux.Demultiplex.{demultiplex}

module _ (fl : FloatOps) where
  oresat_errors : (payload : List ℕ) → OnlyValueError (Oresat.demultiplex_payload fl payload)
  unfolding Oresat.demultiplex_payload
  oresat_errors [] = OnlyValueError-raise _ refl
  oresat_errors (b ∷ payload) = OnlyValueError-if _ (OnlyValueError-raise _ refl) (
      OnlyValueError-bind _ _ (OnlyValueError-unpack_from_view _ _ _) λ sys.
        OnlyValueError-bind _ _ (OnlyValueError-unpack_from_view _ _ _) λ batt. OnlyValueError-ok _)

  cp16_errors : (payload : List ℕ) → OnlyValueError (Cp16.demultiplex_payload fl payload)
  unfolding Cp16.demultiplex_payload
  cp16_errors payload = OnlyValueError-if _ (OnlyValueError-raise _ refl) (
      OnlyValueError-bind _ _ (OnlyValueError-unpack_from_view _ _ _) λ temps.
        OnlyValueError-bind _ _ (OnlyValueError-unpack_from_view _ _ _) λ volt.
          OnlyValueError-bind _ _ (OnlyValueError-unpack_from_view _ _ _) λ cpu.
            OnlyValueError-bind _ _ (OnlyValueError-unpack_from_view _ _ _) λ dir.
              OnlyValueError-bind _ _ (OnlyValueError-unpack_from_view _ _ _)
                λ pkts. OnlyValueError-ok _)

  cape1_field_errors : (view : List ℕ) (c : ℕ) → OnlyValueError (Cape1.fields_of fl view c)
  unfolding Cape1.fields_of
  cape1_field_errors view c = search value_errors depth 20

  cape1_errors : (payload : List ℕ) → OnlyValueError (Cape1.demultiplex_payload fl payload)
  unfolding Cape1.demultiplex_payload
  cape1_errors payload = record {
    only = λ e h. ground (arith, (cape1_field_errors payload (get_or payload 5 0)).only e);
  }

  sonate2_field_errors :
      (bytes : List ℕ) (f : Field fl.F) → OnlyValueError (Sonate2.decode_field fl bytes f)
  unfolding Sonate2.decode_field
  sonate2_field_errors bytes f =
      OnlyValueError-bind _ _ (OnlyValueError-extract_bits bytes f.bit_pos f.bit_len)
        λ n. OnlyValueError-ok _

  read_fields_errors :
      (vcid apid : ℕ) (bytes : List ℕ) → OnlyValueError (Sonate2.read_fields fl vcid apid bytes)
  unfolding Sonate2.read_fields Sonate2.decode_fields
  read_fields_errors vcid apid bytes = elim (Option-cases (Sonate2.apid_fields fl apid)) [
    | inl unmapped ↦ rw (Sonate2.read_fields, unmapped) (OnlyValueError-raise _ refl)
    | inr (fields, mapped) ↦
        rw (Sonate2.read_fields, mapped)
          (OnlyValueError-if _ (OnlyValueError-raise _ refl) (
            OnlyValueError-traverse (Sonate2.decode_field fl bytes) fields
              (sonate2_field_errors bytes)))
  ]

  read_packet_errors :
      (vcid : ℕ) (sp : List ℕ) → 2 ≤ length sp → OnlyValueError (Sonate2.read_packet fl vcid sp)
  unfolding Sonate2.read_packet
  read_packet_errors vcid sp long =
      OnlyValueError-bind _ _ (OnlyValueError-index sp 0 (omega arith)) λ b0.
        OnlyValueError-bind _ _ (OnlyValueError-index sp 1 (omega arith))
          λ b1. read_fields_errors vcid (low_bits b0 3 * 2 ^ 8 + b1) (drop 11 sp)

  -- The guard on the packet's start keeps the reads of its header inside the frame.
  packet_errors :
      (vcid start : ℕ) (view : List ℕ)
      → OnlyValueError (
          if ltb (length view) (start + Sonate2.sp_header_len)
          then raise value_error
          else Sonate2.read_packet fl vcid (drop start view))
  packet_errors vcid start view = elim (Bool-cases (ltb (length view) (start + 6))) [
    | inl past ↦ rw past (OnlyValueError-raise _ refl)
    | inr inside ↦
        rw inside
          (read_packet_errors vcid (drop start view) (ground (arith, length-drop start view)))
  ]

  sonate2_errors : (payload : List ℕ) → OnlyValueError (Sonate2.demultiplex_payload fl payload)
  unfolding Sonate2.demultiplex_payload
  sonate2_errors payload = elim (Bool-cases (ltb (length payload) Sonate2.min_tf_len)) [
    | inl short ↦ rw short (OnlyValueError-raise _ refl)
    | inr long ↦
        let enough : 19 ≤ length payload = ground arith in
        rw (long, Sonate2.demultiplex_payload)
          (OnlyValueError-bind _ _ (OnlyValueError-index payload 1 (omega arith)) λ b1.
            OnlyValueError-bind _ _ (OnlyValueError-index payload 4 (omega arith)) λ b4.
              OnlyValueError-bind _ _ (OnlyValueError-index payload 5 (omega arith)) λ b5.
                packet_errors (low_bits (shr b1 1) 3) (6 + (low_bits b4 3 * 2 ^ 8 + b5)) payload)
  ]

  aprs_errors : (payload : List ℕ) → OnlyValueError (Aprs.demultiplex_payload fl payload)
  unfolding Aprs.demultiplex_payload
  aprs_errors [] = OnlyValueError-raise _ refl
  aprs_errors (c ∷ cs) = elim (Option-cases (Aprs.type_code c)) [
    | inl unknown ↦ rw (unknown, Aprs.demultiplex_payload) (OnlyValueError-raise _ refl)
    | inr (code, known) ↦ rw (known, Aprs.demultiplex_payload) (OnlyValueError-ok _)
  ]

  abbrev AllRaiseValueError : Option (SpecFunc fl) → Type 0
  AllRaiseValueError o =
      (spec : SpecFunc fl) → o ≡ some spec → (payload : List ℕ) → OnlyValueError (spec payload)

  AllRaiseValueError-if :
      (b : Bool) (f : SpecFunc fl) (o : Option (SpecFunc fl))
      → ((payload : List ℕ) → OnlyValueError (f payload))
      → AllRaiseValueError o
      → AllRaiseValueError (if b then some f else o)
  AllRaiseValueError-if true f o hf ho = λ spec e payload. rw (← some_injective e) (hf payload)
  AllRaiseValueError-if false f o hf ho = ho

  get_spec_errors : (norad_id : ℕ) → AllRaiseValueError (get_spec fl norad_id)
  unfolding get_spec
  get_spec_errors norad_id =
      AllRaiseValueError-if (norad_id == 60525) (Oresat.demultiplex_payload fl) _ oresat_errors (
        AllRaiseValueError-if (norad_id == 68458) (Cp16.demultiplex_payload fl) _ cp16_errors (
          AllRaiseValueError-if (norad_id == 31130) (Cape1.demultiplex_payload fl) _ cape1_errors (
            AllRaiseValueError-if (norad_id == 59112) (Sonate2.demultiplex_payload fl) _
              sonate2_errors
              (AllRaiseValueError-if (norad_id == 25544) (Aprs.demultiplex_payload fl) none
                aprs_errors (λ spec e payload. absurd (cc e))))))

  -- `demultiplex` raises no exception but ValueError, on any frame and for every satellite:
  -- not the IndexError of a byte that is not there, nor the struct.error of a short buffer. The worker's
  -- handler, which catches only ValueError, misses none.
  pub demultiplex-OnlyValueError :
      (frame : DecodedFrame) (e : Error) → demultiplex fl frame ≡ raise e → e ≡ value_error
  unfolding demultiplex
  demultiplex-OnlyValueError frame e h = elim (Option-cases (get_spec fl frame.norad_id)) [
    | inl unknown ↦ let h' = rw (unknown, demultiplex) at h in ground arith
    | inr (spec, known) ↦
        let h' = rw (known, demultiplex) at h in
        ground (arith, (get_spec_errors frame.norad_id spec known frame.payload).only e)
  ]
