-- ===== src/Demux/Specs/Layouts/Cape1Beacon.antt =====
-- leo_telemetry/demux/specs/cape1_31130.py on the payloads of the CW decoder, leo_telemetry/decode/cw.py.
use leo_telemetry.Base.{
  ℕ, suc, ◌+◌, ◌-◌, ◌≤◌, ◌<◌, ◌≡◌, refl, ◌∙◌, List, [], ◌∷◌, ◌++◌, Bool, true, false, ◌&&◌, some,
  arith, length, drop, all, ltb, leb, ◌==◌, le→ltb, get_or, if◌then◌else◌, inl, inr, Bool-cases,
}
use leo_telemetry.Base.Int.{pos}
use leo_telemetry.Base.Result.{Result, ok, raise, value_error, ◌>>=◌}
use leo_telemetry.Float.{FloatOps}
use leo_telemetry.Decode.Cw.Beacon.{cw_payload-IsBeacon}
use leo_telemetry.Decode.Cw.{cw_callsign, cw_payload, is_packet_type, is_hex_digit}
use leo_telemetry.Demux.Errors.{OnlyValueError-parse_ascii_hex}
use leo_telemetry.Demux.Specs.Cape1 as Cape1
use leo_telemetry.Demux.Specs.Cape1.{fields_of}
use leo_telemetry.Demux.Common.{parse_ascii_hex, metric, Metrics}
use leo_telemetry.Demux.Specs.Layouts.HexPairs.{
  signed_pair, parse_ascii_hex-pair, parse_ascii_hex-short, bind_fails,
}

-- The hex characters that a packet type needs.
abbrev pub needed : ℕ → ℕ
needed packet_type = if packet_type == b'1' then 10 else if packet_type == b'2' then 6 else 4

six_more : (a n : ℕ) → ltb (suc (suc (suc (suc (suc (suc a)))))) (6 + n) ≡ ltb a n
six_more a n = ground arith

module _ (fl : FloatOps) where
  abbrev pub value : List ℕ → Bool → ℕ → fl.F → fl.F
  value fields signed j scale = fl.mul (fl.of_ℤ (signed_pair signed fields j)) scale

  -- What the fields of a packet type are, by the hex characters.
  abbrev pub cape1_fields : ℕ → List ℕ → Metrics fl
  cape1_fields packet_type fields =
      if packet_type == b'1'
      then metric fl "mpb_voltage" (value fields false 0 (fl.decimal (pos 2) 2)) "V"
        ∷ metric fl "hpb_voltage" (value fields false 2 (fl.decimal (pos 2) 2)) "V"
        ∷ metric fl "battery_1_voltage" (value fields false 4 (fl.decimal (pos 2) 2)) "V"
        ∷ metric fl "battery_1_current_generated" (value fields false 8 (fl.decimal (pos 1) 0)) "mA"
        ∷ []
      else if packet_type == b'2'
      then metric fl "temp_battery_1" (value fields true 0 (fl.decimal (pos 1) 0)) "C"
        ∷ metric fl "temp_px_face" (value fields true 2 (fl.decimal (pos 1) 0)) "C"
        ∷ metric fl "temp_nx_face" (value fields true 4 (fl.decimal (pos 1) 0)) "C"
        ∷ []
      else metric fl "panel_px_face_current" (value fields false 0 (fl.decimal (pos 10) 0)) "mA"
        ∷ metric fl "panel_nx_face_current" (value fields false 2 (fl.decimal (pos 10) 0)) "mA"
        ∷ []

  module _ (packet_type : ℕ) (fields : List ℕ) (hex : all is_hex_digit fields ≡ true) where
    abbrev view : List ℕ
    view = cw_callsign ++ packet_type ∷ fields

    -- The field at a place in the payload.
    read :
        (start j : ℕ) (signed : Bool) (scale : fl.F)
        → drop start view ≡ drop j fields
        → start ≡ 6 + j
        → suc (suc j) ≤ length fields
        → parse_ascii_hex fl view start 2 signed scale ≡ ok (value fields signed j scale)
    read start j signed scale same place long =
        parse_ascii_hex-pair fl view fields hex start j signed scale same
          (omega (arith, place, long)) long

    -- The last field of a packet that is too short.
    fails :
        (start : ℕ) (signed : Bool) (scale : fl.F)
        → length fields + 6 < start + 2
        → parse_ascii_hex fl view start 2 signed scale ≡ raise value_error
    fails start signed scale short =
        parse_ascii_hex-short fl view fields hex start signed scale (omega (arith, short))

    -- An earlier field, of which only a ValueError is to be expected.
    skips :
        {B : Type 0} (start : ℕ) (signed : Bool) (scale : fl.F) (f : fl.F → Result B)
        → ((v : fl.F) → f v ≡ raise value_error)
        → (parse_ascii_hex fl view start 2 signed scale >>= f) ≡ raise value_error
    skips start signed scale f rest =
        bind_fails (parse_ascii_hex fl view start 2 signed scale) f
          (OnlyValueError-parse_ascii_hex fl view start 2 signed scale) rest

    type_1 :
        (packet_type == b'1') ≡ true
        → fields_of fl view packet_type ≡ (
            if ltb (length fields) 10
            then raise value_error
            else ok (cape1_fields packet_type fields))
    unfolding fields_of
    type_1 one = elim (Bool-cases (ltb (length fields) 10)) [
      | inl short ↦
          let cut = fails 14 false (fl.decimal (pos 1) 0) (ground arith) in
          rw (one, short)
            (skips 6 false _ _
              (λ a. skips 8 false _ _ (λ b. skips 10 false _ _ (λ c. rw cut refl))))
      | inr long ↦
          let size : 10 ≤ length fields = ground arith in
          rw
            (
              one,
              long,
              read 6 0 false (fl.decimal (pos 2) 2) refl refl (omega (arith, size)),
              read 8 2 false (fl.decimal (pos 2) 2) refl refl (omega (arith, size)),
              read 10 4 false (fl.decimal (pos 2) 2) refl refl (omega (arith, size)),
              read 14 8 false (fl.decimal (pos 1) 0) refl refl (omega (arith, size)),
            )
            refl
    ]

    type_2 :
        (packet_type == b'1') ≡ false
        → (packet_type == b'2') ≡ true
        → fields_of fl view packet_type ≡ (
            if ltb (length fields) 6
            then raise value_error
            else ok (cape1_fields packet_type fields))
    unfolding fields_of
    type_2 other two = elim (Bool-cases (ltb (length fields) 6)) [
      | inl short ↦
          let cut = fails 10 true (fl.decimal (pos 1) 0) (ground arith) in
          rw (other, two, short) (skips 6 true _ _ (λ a. skips 8 true _ _ (λ b. rw cut refl)))
      | inr long ↦
          let size : 6 ≤ length fields = ground arith in
          rw
            (
              other,
              two,
              long,
              read 6 0 true (fl.decimal (pos 1) 0) refl refl (omega (arith, size)),
              read 8 2 true (fl.decimal (pos 1) 0) refl refl (omega (arith, size)),
              read 10 4 true (fl.decimal (pos 1) 0) refl refl (omega (arith, size)),
            )
            refl
    ]

    type_3 :
        (packet_type == b'1') ≡ false
        → (packet_type == b'2') ≡ false
        → (packet_type == b'3') ≡ true
        → fields_of fl view packet_type ≡ (
            if ltb (length fields) 4
            then raise value_error
            else ok (cape1_fields packet_type fields))
    unfolding fields_of
    type_3 other different three = elim (Bool-cases (ltb (length fields) 4)) [
      | inl short ↦
          let cut = fails 8 false (fl.decimal (pos 10) 0) (ground arith) in
          rw (other, different, three, short) (skips 6 false _ _ (λ a. rw cut refl))
      | inr long ↦
          let size : 4 ≤ length fields = ground arith in
          rw
            (
              other,
              different,
              three,
              long,
              read 6 0 false (fl.decimal (pos 10) 0) refl refl (omega (arith, size)),
              read 8 2 false (fl.decimal (pos 10) 0) refl refl (omega (arith, size)),
            )
            refl
    ]

    fields_of-read :
        is_packet_type packet_type ≡ true
        → fields_of fl view packet_type ≡ (
            if ltb (length fields) (needed packet_type)
            then raise value_error
            else ok (cape1_fields packet_type fields))
    fields_of-read known = elim (Bool-cases (packet_type == b'1')) [
      | inl one ↦ type_1 one ∙ rw one refl
      | inr other ↦ elim (Bool-cases (packet_type == b'2')) [
        | inl two ↦ type_2 other two ∙ rw (other, two) refl
        | inr different ↦
            let three : (packet_type == b'3') ≡ true = rw (other, different) at known in
            type_3 other different three ∙ rw (other, different) refl
      ]
    ]

    -- What the spec makes of a payload with the layout of a beacon.
    demultiplex_payload-view :
        is_packet_type packet_type ≡ true
        → 2 ≤ length fields
        → Cape1.demultiplex_payload fl view ≡ (
            if ltb (length view) (6 + needed packet_type)
            then raise value_error
            else ok (
                metric fl "packet_type" (fl.of_ℤ (pos (packet_type - b'0'))) "type"
                ∷ cape1_fields packet_type fields))
    unfolding Cape1.demultiplex_payload
    demultiplex_payload-view known two =
        let full : ltb (length view) 8 ≡ false = le→ltb _ _ (omega (arith, two)) in
        let numeric : (leb b'0' packet_type && leb packet_type b'9') ≡ true = ground arith in
        let shift : ltb (length view) (6 + needed packet_type)
            ≡ ltb (length fields) (needed packet_type) =
          six_more (length fields) (needed packet_type) in
        elim (Bool-cases (ltb (length fields) (needed packet_type))) [
          | inl short ↦
              let refused : fields_of fl view packet_type ≡ raise value_error =
                fields_of-read known ∙ rw short refl in
              rw (full, numeric, shift, short, refused) refl
          | inr long ↦
              let made : fields_of fl view packet_type ≡ ok (cape1_fields packet_type fields) =
                fields_of-read known ∙ rw long refl in
              rw (full, numeric, shift, long, made) refl
        ]

  -- Every payload that the CW decoder finds in a transcription is read by the CAPE-1 spec, if it has the
  -- hex characters that its packet type needs: 10, 6 or 4 for the types 1, 2 and 3. The values are those
  -- of its pairs of hex digits, signed in type 2. It is refused with ValueError exactly if it has fewer,
  -- since the decoder asks for two only.
  pub cw_payload-read :
      (raw_bytes payload : List ℕ)
      → cw_payload raw_bytes ≡ some payload
      → let packet_type = get_or payload 5 0 in
        Cape1.demultiplex_payload fl payload ≡ (
          if ltb (length payload) (6 + needed packet_type)
          then raise value_error
          else ok (
              metric fl "packet_type" (fl.of_ℤ (pos (packet_type - b'0'))) "type"
              ∷ cape1_fields packet_type (drop 6 payload)))
  cw_payload-read raw_bytes payload found =
      let b = cw_payload-IsBeacon raw_bytes payload found in
      rw b.layout (demultiplex_payload-view b.packet_type b.fields b.hex b.known_type b.two_chars)
