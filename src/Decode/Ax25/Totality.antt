-- ===== src/Decode/Ax25/Totality.antt =====
-- The decoder raises nothing on bytes, and its loop ends by its own test.
use leo_telemetry.Base.{
  ℕ, zero, suc, ◌+◌, ◌<◌, ◌≤◌, ◌≡◌, refl, List, [], ◌∷◌, ◌++◌, map, Bool, true, false, not, ◌&&◌,
  none, some, ltb, leb, ◌==◌, arith, length, take, slice, all, any, All, All-drop, All-take, IsByte,
  shr, Bool-cases, inl, inr,
}
use leo_telemetry.Base.Result.{ok, Returns}
use leo_telemetry.Chars.{is_ascii, strip, decode_ascii-all}
use leo_telemetry.Models.{RawFrame}
use leo_telemetry.Decode.Crc16.{verify_fcs}
use leo_telemetry.Decode.Cw.{cw_norad_ids, decode_cw_beacon}
use leo_telemetry.Decode.Ax25.{
  decode_address, is_last_address, address_loop, build_frame, decode_frame,
}

all_ascii-shr : (bytes : List ℕ) → All IsByte bytes → all is_ascii (map (λ b. shr b 1) bytes) ≡ true
all_ascii-shr [] h = refl
all_ascii-shr (b ∷ bytes) h = ground (arith, all_ascii-shr bytes)

-- A shifted byte is ASCII, so an address field of bytes is always decoded.
pub decode_address-ok :
    (field : List ℕ) → All IsByte field → (text : List ℕ) × (decode_address field ≡ ok text)
unfolding decode_address
decode_address-ok field h =
    let shifted = map (λ b. shr b 1) (take 6 field) in
    (
      strip shifted,
      rw (decode_ascii-all shifted (all_ascii-shr (take 6 field) (All-take IsByte 6 field h))),
    )

address_loop-Returns :
    (fuel : ℕ) (buffer : List ℕ) (i : ℕ) (found : List (List ℕ))
    → All IsByte buffer
    → i ≤ length buffer
    → length buffer < fuel + i
    → Returns (address_loop fuel buffer i found)
unfolding address_loop
address_loop-Returns zero buffer i found h inside enough = absurd (omega arith)
address_loop-Returns (suc fuel) buffer i found h inside enough =
    elim (Bool-cases (leb (i + 7) (length buffer))) [
      | inr short ↦ ((found, i, false), rw (short, address_loop))
      | inl room ↦
          let chunk = slice buffer i (i + 7) in
          let (text, decoded) =
            decode_address-ok chunk (All-drop IsByte i _ (All-take IsByte (i + 7) buffer h)) in
          let fits : i + 7 ≤ length buffer = ground arith in
          let (scan, rest) =
            address_loop-Returns fuel buffer (i + 7) (found ++ text ∷ []) h fits (omega arith) in
          elim (Bool-cases (is_last_address chunk)) [
            | inl last ↦ ((found ++ text ∷ [], i + 7, true), rw (room, address_loop, decoded, last))
            | inr more ↦ (scan, rw (room, address_loop, decoded, more) rest)
          ]
    ]

-- On a capture of bytes, whatever the bytes are, `decode_frame` raises nothing and ends: its loop over
-- the address fields stops by its own tests before the rounds are used up.
pub decode_frame-Returns :
    (calc : List ℕ → ℕ) (raw : RawFrame) (has_fcs : Bool)
    → All IsByte raw.raw_bytes
    → Returns (decode_frame calc (some raw) has_fcs)
unfolding decode_frame
decode_frame-Returns calc raw has_fcs h =
    let (scan, e) =
      address_loop-Returns (suc (length raw.raw_bytes)) raw.raw_bytes 0 [] h (omega arith)
        (omega arith) in
    elim (Bool-cases (any (λ n. n == raw.norad_id) cw_norad_ids)) [
      | inl cw ↦ (decode_cw_beacon raw, rw cw)
      | inr ax25 ↦ elim (Bool-cases (ltb (length raw.raw_bytes) 15)) [
        | inl short ↦ (none, rw (ax25, short))
        | inr long ↦ elim (Bool-cases (has_fcs && not (verify_fcs calc raw.raw_bytes))) [
          | inl bad ↦ (none, rw (ax25, long, bad))
          | inr good ↦ (build_frame raw has_fcs scan, rw (ax25, long, good, e))
        ]
      ]
    ]
