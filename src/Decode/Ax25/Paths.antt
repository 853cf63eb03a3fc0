-- ===== src/Decode/Ax25/Paths.antt =====
-- leo_telemetry/decode/ax25.py: the loop of the decoder over the address fields of a path.
use leo_telemetry.Base.{
  ℕ, zero, suc, ◌+◌, ◌*◌, ◌<◌, ◌≡◌, ap, sym, ◌∙◌, List, [], ◌∷◌, ◌++◌, map, Bool, true, false, leb,
  if◌then◌else◌, arith, length, drop, slice, All, length-append, length-drop, drop-drop,
  drop-length, slice_of_drop, append_assoc,
}
use leo_telemetry.Base.Result.{ok}
use leo_telemetry.Decode.Ax25.{address_loop}
use leo_telemetry.Decode.Ax25.Encode.{
  Address, IsAddress, shifted_address, path_bytes, length-shifted_address,
  decode_address-shifted_address, is_last-shifted_address,
}

abbrev pub callsigns : Address → List Address → List (List ℕ)
callsigns a path = a.callsign ∷ map (λ b. b.callsign) path

-- One round of the loop at an address field.
address_loop-field :
    (a : Address) (last : Bool) (fuel : ℕ) (buffer rest : List ℕ) (i : ℕ) (found : List (List ℕ))
    → IsAddress a
    → drop i buffer ≡ shifted_address a.callsign a.ssid last ++ rest
    → address_loop (suc fuel) buffer i found ≡ (
        if last
        then ok (found ++ a.callsign ∷ [], i + 7, true)
        else address_loop fuel buffer (i + 7) (found ++ a.callsign ∷ []))
unfolding address_loop
address_loop-field a last fuel buffer rest i found v e =
    let field = shifted_address a.callsign a.ssid last in
    let seven : length field ≡ 7 = length-shifted_address a v last in
    let room : leb (i + 7) (length buffer) ≡ true =
      ground (arith, length-drop i buffer, ap length e, length-append field rest, seven) in
    let chunk : slice buffer i (i + 7) ≡ field =
      ap (λ n. slice buffer i (i + n)) (sym seven) ∙ slice_of_drop buffer i field rest e in
    rw (
      room,
      address_loop,
      chunk,
      decode_address-shifted_address a v last,
      is_last-shifted_address a v last,
    )

-- The bytes behind an address field.
drop-field :
    (a : Address) (last : Bool) (buffer rest : List ℕ) (i : ℕ)
    → IsAddress a
    → drop i buffer ≡ shifted_address a.callsign a.ssid last ++ rest
    → drop (i + 7) buffer ≡ rest
drop-field a last buffer rest i v e =
    let field = shifted_address a.callsign a.ssid last in
    let seven : length field ≡ 7 = length-shifted_address a v last in
    ap (λ n. drop (i + n) buffer) (sym seven)
    ∙ sym (drop-drop (length field) i buffer)
    ∙ ap (drop (length field)) e
    ∙ drop-length field rest

-- The loop over the fields of a path returns its callsigns and the index behind it.
pub address_loop-path :
    (path : List Address) (a : Address) (fuel : ℕ) (buffer rest : List ℕ) (i : ℕ)
    (found : List (List ℕ))
    → IsAddress a
    → All IsAddress path
    → drop i buffer ≡ path_bytes a path ++ rest
    → length path < fuel
    → (address_loop fuel buffer i found
        ≡ ok (found ++ callsigns a path, i + 7 * suc (length path), true))
      × (drop (i + 7 * suc (length path)) buffer ≡ rest)
unfolding path_bytes
address_loop-path path a zero buffer rest i found v vs e k = absurd (omega arith)
address_loop-path [] a (suc fuel) buffer rest i found v vs e k =
    (address_loop-field a true fuel buffer rest i found v e, drop-field a true buffer rest i v e)
address_loop-path (b ∷ path) a (suc fuel) buffer rest i found v vs e k =
    let field = shifted_address a.callsign a.ssid false in
    let split : drop i buffer ≡ field ++ (path_bytes b path ++ rest) =
      e ∙ append_assoc field (path_bytes b path) rest in
    let (loop, behind) =
      address_loop-path path b fuel buffer rest (i + 7) (found ++ a.callsign ∷ []) vs.0 vs.1
        (drop-field a false buffer (path_bytes b path ++ rest) i v split) (omega arith) in
    let index : i + 7 + 7 * suc (length path) ≡ i + 7 * suc (suc (length path)) = omega arith in
    (
      address_loop-field a false fuel buffer (path_bytes b path ++ rest) i found v split
          ∙ loop
          ∙ rw (index, append_assoc found (a.callsign ∷ []) (callsigns b path)),
      ap (λ n. drop n buffer) (sym index) ∙ behind,
    )

-- The length of a path, in bytes.
pub length-path_bytes :
    (path : List Address) (a : Address)
    → IsAddress a
    → All IsAddress path
    → length (path_bytes a path) ≡ 7 * suc (length path)
unfolding path_bytes
length-path_bytes [] a v vs = length-shifted_address a v true
length-path_bytes (b ∷ path) a v vs = omega (
  arith,
  length-append (shifted_address a.callsign a.ssid false) (path_bytes b path),
  length-shifted_address a v false,
  length-path_bytes path b vs.0 vs.1,
)
