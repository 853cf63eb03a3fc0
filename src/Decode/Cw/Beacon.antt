-- ===== src/Decode/Cw/Beacon.antt =====
-- What the CW decoder accepts, and what it makes of it.
use leo_telemetry.Base.{
  ℕ, suc, ◌+◌, ◌≤◌, ◌≡◌, refl, ap, sym, ◌∙◌, List, [], ◌∷◌, ◌++◌, Bool, true, false, not, some, ltb,
  arith, length, length-append, length-take, get_or, take, drop, take-length, drop-length, all,
  Bool-cases, Option-cases, inl, inr, le→ltb, some_injective, append-nil,
}
use leo_telemetry.Base.Result.{Result-cases}
use leo_telemetry.Chars.{is_ascii, upper, collapse, decode_ascii, decode_ascii-all}
use leo_telemetry.Decode.FrameSync.{find, find_in}
use leo_telemetry.Decode.Cw.{
  cw_callsign, is_packet_type, is_hex_digit, hex_run_from, beacon_payload, normalize, cw_payload,
}

-- The layout of a beacon: the callsign, the packet type and two hex characters at least.
pub record IsBeacon (payload : List ℕ) : Type 0 where
  pub packet_type : ℕ
  pub fields : List ℕ
  pub layout : payload ≡ cw_callsign ++ packet_type ∷ fields
  pub known_type : is_packet_type packet_type ≡ true
  pub hex : all is_hex_digit fields ≡ true
  pub two_chars : 2 ≤ length fields

-- The text behind the fields: nothing, or what starts with a character that is no hex digit.
abbrev pub stops : List ℕ → Bool
stops [] = true
stops (c ∷ noise) = not (is_hex_digit c)

hex_run_from-hex :
    (fields : List ℕ) (n : ℕ)
    → (k : ℕ) × (hex_run_from fields n ≡ n + k)
      × (all is_hex_digit (take k fields) ≡ true)
      × (k ≤ length fields)
      × (stops (drop k fields) ≡ true)
unfolding hex_run_from
hex_run_from-hex [] n = (0, omega arith, refl, omega arith, refl)
hex_run_from-hex (c ∷ fields) n = elim (Bool-cases (is_hex_digit c)) [
  | inl hex ↦
      let (k, run, digits, inside, stop) = hex_run_from-hex fields (n + 1) in
      (suc k, ground arith, ground arith, omega arith, stop)
  | inr other ↦ (0, ground arith, refl, omega arith, ground arith)
]

hex_run_from-append :
    (fields noise : List ℕ) (n : ℕ)
    → all is_hex_digit fields ≡ true
    → stops noise ≡ true
    → hex_run_from (fields ++ noise) n ≡ n + length fields
unfolding hex_run_from
hex_run_from-append [] [] n h s = omega arith
hex_run_from-append [] (c ∷ noise) n h s = ground arith
hex_run_from-append (c ∷ fields) noise n h s =
    ground (arith, hex_run_from-append fields noise (n + 1))

-- The decoder's tests on the text from the marker on.
beacon_payload-append :
    (payload noise : List ℕ)
    → IsBeacon payload
    → stops noise ≡ true
    → beacon_payload (payload ++ noise) ≡ some payload
unfolding beacon_payload
beacon_payload-append payload noise b s =
    let run : hex_run_from (b.fields ++ noise) 0 ≡ length b.fields =
      hex_run_from-append b.fields noise 0 b.hex s ∙ omega arith in
    let long : ltb (length (cw_callsign ++ b.packet_type ∷ (b.fields ++ noise))) 8 ≡ false =
      le→ltb _ _ (omega (arith, length-append b.fields noise, b.two_chars)) in
    let enough : ltb (length b.fields) 2 ≡ false = le→ltb _ _ b.two_chars in
    rw (b.layout, long, b.known_type, run, enough, take-length b.fields noise)

-- What the decoder returns has the layout of a beacon.
beacon_payload-IsBeacon :
    (beacon payload : List ℕ) → beacon_payload beacon ≡ some payload → IsBeacon payload
unfolding beacon_payload
beacon_payload-IsBeacon beacon payload h =
    let packet_type = get_or beacon 5 0 in
    let fields = drop 6 beacon in
    let (k, run, digits, inside, stop) = hex_run_from-hex fields 0 in
    let count : hex_run_from fields 0 ≡ k = run ∙ omega arith in
    elim (Bool-cases (ltb (length beacon) 8)) [
      | inl short ↦ absurd (cc (rw short at h))
      | inr long ↦ elim (Bool-cases (is_packet_type packet_type)) [
        | inr unknown ↦ absurd (cc (rw (long, unknown) at h))
        | inl known ↦ elim (Bool-cases (ltb (hex_run_from fields 0) 2)) [
          | inl few ↦ absurd (cc (rw (long, known, few) at h))
          | inr enough ↦
              let accepted = rw (long, known, enough) at h in
              record {
                packet_type = packet_type;
                fields = take (hex_run_from fields 0) fields;
                layout = sym (some_injective accepted);
                known_type = known;
                hex = rw count digits;
                two_chars = ground (arith, length-take (hex_run_from fields 0) fields);
              }
        ]
      ]
    ]

-- Every payload that the CW decoder returns is a beacon: the callsign, a packet type of 1, 2 or 3,
-- and at least two characters, all of them upper-case hex digits.
pub cw_payload-IsBeacon :
    (raw_bytes payload : List ℕ) → cw_payload raw_bytes ≡ some payload → IsBeacon payload
unfolding cw_payload
cw_payload-IsBeacon raw_bytes payload h = elim (Result-cases (decode_ascii raw_bytes)) [
  | inr (e, raised) ↦ absurd (cc (rw (raised, cw_payload) at h))
  | inl (text, decoded) ↦ elim (Option-cases (find cw_callsign (normalize text) 0)) [
    | inl absent ↦ absurd (cc (rw (decoded, cw_payload, absent) at h))
    | inr (marker, found) ↦
        beacon_payload-IsBeacon (drop marker (normalize text)) payload
          (rw (decoded, cw_payload, found) at h)
  ]
]

-- A transcription in ASCII that, without its spaces and in upper case, reads some noise, the first
-- callsign, the rest of a beacon, and noise that does not go on with a hex digit, is decoded to
-- exactly that beacon.
pub cw_payload-beacon :
    (raw_bytes lead payload noise : List ℕ)
    → all is_ascii raw_bytes ≡ true
    → normalize raw_bytes ≡ lead ++ (payload ++ noise)
    → find cw_callsign (normalize raw_bytes) 0 ≡ some (length lead)
    → IsBeacon payload
    → stops noise ≡ true
    → cw_payload raw_bytes ≡ some payload
unfolding cw_payload
cw_payload-beacon raw_bytes lead payload noise ascii reads first b s =
    rw
      (
        decode_ascii-all raw_bytes ascii,
        cw_payload,
        first,
        reads,
        drop-length lead (payload ++ noise),
      )
      (beacon_payload-append payload noise b s)

normalize-hex : (fields : List ℕ) → all is_hex_digit fields ≡ true → normalize fields ≡ fields
unfolding upper collapse
normalize-hex [] h = refl
normalize-hex (c ∷ fields) h = ground (arith, normalize-hex fields)

ascii-hex : (fields : List ℕ) → all is_hex_digit fields ≡ true → all is_ascii fields ≡ true
ascii-hex [] h = refl
ascii-hex (c ∷ fields) h = ground (arith, ascii-hex fields)

-- The packet type is a hex digit too.
type-hex :
    (c : ℕ) (fields : List ℕ)
    → is_packet_type c ≡ true
    → all is_hex_digit fields ≡ true
    → all is_hex_digit (c ∷ fields) ≡ true
type-hex c fields known hex = ground arith

normalize-beacon : (payload : List ℕ) → IsBeacon payload → normalize payload ≡ payload
unfolding upper collapse
normalize-beacon payload b =
    let tail = b.packet_type ∷ b.fields in
    rw b.layout (
      ap (λ t. cw_callsign ++ t)
        (normalize-hex tail (type-hex b.packet_type b.fields b.known_type b.hex)))

find-beacon : (payload : List ℕ) → IsBeacon payload → find cw_callsign payload 0 ≡ some 0
unfolding find find_in
find-beacon payload b = rw b.layout

-- A beacon, decoded, is itself: what the CW decoder has returned once it accepts again unchanged.
pub cw_payload_idem : (payload : List ℕ) → IsBeacon payload → cw_payload payload ≡ some payload
cw_payload_idem payload b =
    let plain = normalize-beacon payload b in
    cw_payload-beacon payload [] payload []
      (rw b.layout
        (ascii-hex (b.packet_type ∷ b.fields) (type-hex b.packet_type b.fields b.known_type b.hex)))
      (plain ∙ sym (append-nil payload)) (rw plain (find-beacon payload b)) b refl
