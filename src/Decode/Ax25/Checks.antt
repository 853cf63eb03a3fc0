-- ===== src/Decode/Ax25/Checks.antt =====
-- What an accepted frame has passed.
use leo_telemetry.Base.{
  ℕ, zero, suc, ◌+◌, ◌*◌, ◌≤◌, ◌<◌, ◌≡◌, ap, ◌∙◌, List, [], ◌∷◌, ◌++◌, Bool, true, false, not, ◌&&◌,
  some, ltb, leb, leb→le, ◌==◌, arith, length, length-append, slice, any, Bool-cases, inl, inr,
}
use leo_telemetry.Base.Result.{ok, Result-cases, ok-injective}
use leo_telemetry.Models.{RawFrame, DecodedFrame}
use leo_telemetry.Decode.Crc16.{verify_fcs}
use leo_telemetry.Decode.Cw.{cw_norad_ids}
use leo_telemetry.Decode.Ax25.{
  decode_address, is_last_address, address_loop, payload_of, build_frame, decode_frame,
}

-- The address field number `k` from index `i` on.
abbrev pub field_at : List ℕ → ℕ → ℕ → List ℕ
field_at buffer i k = slice buffer (i + 7 * k) (i + 7 * k + 7)

field_at-zero : (buffer : List ℕ) (i : ℕ) → field_at buffer i 0 ≡ slice buffer i (i + 7)
field_at-zero buffer i = let e : i + 7 * 0 ≡ i = omega arith in ap (λ n. slice buffer n (n + 7)) e

field_at-suc : (buffer : List ℕ) (i k : ℕ) → field_at buffer i (suc k) ≡ field_at buffer (i + 7) k
field_at-suc buffer i k =
    let e : i + 7 * suc k ≡ i + 7 + 7 * k = omega arith in ap (λ n. slice buffer n (n + 7)) e

earlier_step :
    (buffer : List ℕ) (i k : ℕ)
    → is_last_address (slice buffer i (i + 7)) ≡ false
    → ((m : ℕ) → m < k → is_last_address (field_at buffer (i + 7) m) ≡ false)
    → (m : ℕ) → m < suc k
    → is_last_address (field_at buffer i m) ≡ false
earlier_step buffer i k first rest zero lt = rw field_at-zero first
earlier_step buffer i k first rest (suc m) lt = rw field_at-suc (rest m (omega arith))

-- The loop stopped at the end `j` of field number `k`: it is the first with its extension bit set.
record Ended (buffer : List ℕ) (i before : ℕ) (scan : List (List ℕ) × ℕ × Bool) : Type 0 where
  k : ℕ
  index : scan.1 ≡ i + 7 * suc k
  inside : scan.1 ≤ length buffer
  count : length scan.0 ≡ before + suc k
  last : is_last_address (field_at buffer i k) ≡ true
  earlier : (m : ℕ) → m < k → is_last_address (field_at buffer i m) ≡ false

address_loop-Ended :
    (fuel : ℕ) (buffer : List ℕ) (i : ℕ) (found : List (List ℕ)) (scan : List (List ℕ) × ℕ × Bool)
    → address_loop fuel buffer i found ≡ ok scan
    → scan.2 ≡ true
    → Ended buffer i (length found) scan
unfolding address_loop
address_loop-Ended zero buffer i found scan h t = absurd (cc h)
address_loop-Ended (suc fuel) buffer i found scan h t =
    elim (Bool-cases (leb (i + 7) (length buffer))) [
      | inr short ↦
          let e : (found, i, false) ≡ scan = ok-injective (rw (short, address_loop) at h) in
          absurd (cc (ap (λ (s : List (List ℕ) × ℕ × Bool). s.2) e, t))
      | inl room ↦ elim (Result-cases (decode_address (slice buffer i (i + 7)))) [
        | inr (e, raised) ↦ absurd (cc (rw (room, address_loop, raised) at h))
        | inl (text, decoded) ↦ elim (Bool-cases (is_last_address (slice buffer i (i + 7)))) [
          | inl last ↦
              let e : (found ++ text ∷ [], i + 7, true) ≡ scan =
                ok-injective (rw (room, address_loop, decoded, last) at h) in
              rw (← e) (record {
                k = 0;
                index = omega arith;
                inside = leb→le _ _ room;
                count = omega (arith, length-append found (text ∷ []));
                last = rw field_at-zero last;
                earlier = λ m lt. elim lt [ ];
              })
          | inr more ↦
              let rest =
                address_loop-Ended fuel buffer (i + 7) (found ++ text ∷ []) scan
                  (rw (room, address_loop, decoded, more) at h) t in
              record {
                k = suc rest.k;
                index = omega (arith, rest.index);
                inside = rest.inside;
                count = omega (arith, rest.count, length-append found (text ∷ []));
                last = rw field_at-suc rest.last;
                earlier = earlier_step buffer i rest.k more rest.earlier;
              }
        ]
      ]
    ]

-- What `build_frame` needs to accept.
build_frame-some :
    (raw : RawFrame) (has_fcs : Bool) (scan : List (List ℕ) × ℕ × Bool) (f : DecodedFrame)
    → build_frame raw has_fcs scan ≡ some f
    → (scan.2 ≡ true)
      × (2 ≤ length scan.0)
      × (f.norad_id ≡ raw.norad_id)
      × (f.received_at ≡ raw.received_at)
      × (f.crc_valid ≡ true)
      × (f.payload ≡ payload_of raw.raw_bytes (scan.1 + 2) has_fcs)
unfolding build_frame
build_frame-some raw has_fcs (dest ∷ src ∷ digipeaters, i, true) f h = ground arith
build_frame-some raw has_fcs (dest ∷ src ∷ digipeaters, i, false) f h = cc
build_frame-some raw has_fcs ([], i, b) f h = cc
build_frame-some raw has_fcs (dest ∷ [], i, b) f h = cc

-- The header of an accepted frame and the payload behind it: field number `k`, which is not the
-- first, ends inside the capture and is the first with its extension bit set; the payload starts
-- behind it and the two bytes of control and PID.
pub record HasHeader (bytes : List ℕ) (has_fcs : Bool) (payload : List ℕ) : Type 0 where
  pub k : ℕ
  pub two_addresses : 1 ≤ k
  pub inside : 7 * suc k ≤ length bytes
  pub last : is_last_address (field_at bytes 0 k) ≡ true
  pub earlier : (m : ℕ) → m < k → is_last_address (field_at bytes 0 m) ≡ false
  pub payload_start : payload ≡ payload_of bytes (7 * suc k + 2) has_fcs

-- A frame that `decode_frame` accepts from a satellite that sends AX.25 has at least the minimum
-- length, has passed the check of its trailer where it carries one, has a header of two addresses or
-- more that ends inside the capture, and keeps the capture's NORAD id and time.
pub decode_frame-accepts :
    (calc : List ℕ → ℕ) (raw : RawFrame) (has_fcs : Bool) (f : DecodedFrame)
    → any (λ n. n == raw.norad_id) cw_norad_ids ≡ false
    → decode_frame calc (some raw) has_fcs ≡ ok (some f)
    → (15 ≤ length raw.raw_bytes)
      × (has_fcs ≡ true → verify_fcs calc raw.raw_bytes ≡ true)
      × HasHeader raw.raw_bytes has_fcs f.payload
      × (f.norad_id ≡ raw.norad_id)
      × (f.received_at ≡ raw.received_at)
      × (f.crc_valid ≡ true)
unfolding decode_frame
decode_frame-accepts calc raw has_fcs f not_cw h =
    elim (Bool-cases (ltb (length raw.raw_bytes) 15)) [
      | inl short ↦ absurd (cc (rw (not_cw, short) at h))
      | inr long ↦ elim (Bool-cases (has_fcs && not (verify_fcs calc raw.raw_bytes))) [
        | inl bad ↦ absurd (cc (rw (not_cw, long, bad) at h))
        | inr good ↦
            elim (Result-cases (address_loop (suc (length raw.raw_bytes)) raw.raw_bytes 0 [])) [
              | inr (e, raised) ↦ absurd (cc (rw (not_cw, long, good, raised) at h))
              | inl (scan, looped) ↦
                  let accepted = ok-injective (rw (not_cw, long, good, looped) at h) in
                  let (found, two, norad, time, crc, payload) =
                    build_frame-some raw has_fcs scan f accepted in
                  let ended =
                    address_loop-Ended (suc (length raw.raw_bytes)) raw.raw_bytes 0 [] scan looped
                      found in
                  let stop : scan.1 ≡ 7 * suc ended.k = omega (arith, ended.index) in
                  (
                    ground arith,
                    (λ kept. ground arith),
                    record {
                      k = ended.k;
                      two_addresses = omega (arith, ended.count);
                      inside = omega (arith, ended.inside);
                      last = ended.last;
                      earlier = ended.earlier;
                      payload_start =
                          payload ∙ ap (λ n. payload_of raw.raw_bytes (n + 2) has_fcs) stop;
                    },
                    norad,
                    time,
                    crc,
                  )
            ]
      ]
    ]
