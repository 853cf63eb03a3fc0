-- ===== src/Decode/Ax25/Encode.antt =====
-- The frames that an AX.25 station sends, as tests/test_decode/helpers.py builds them, and what the
-- decoder reads from one address field.
use leo_telemetry.Base.{
  ℕ, zero, suc, ◌+◌, ◌-◌, ◌*◌, ◌≤◌, ◌≡◌, refl, ap, sym, ◌∙◌, List, [], ◌∷◌, ◌++◌, map, Bool, true,
  false, if◌then◌else◌, arith, length, take, all, shr, length-append, take-length, get_or,
  get_or-length,
}
use leo_telemetry.Base.Result.{ok}
use leo_telemetry.Chars.{is_ascii, is_graphic, decode_ascii-all, spaces, strip-pad}
use leo_telemetry.Decode.Crc16.{fcs_bytes}
use leo_telemetry.Decode.Ax25.{decode_address, is_last_address}

-- callsign.ljust(6)
abbrev pub ljust6 : List ℕ → List ℕ
ljust6 callsign = callsign ++ spaces (6 - length callsign)

unfoldable pub shifted_address : List ℕ → ℕ → Bool → List ℕ
shifted_address callsign ssid last =
    map (λ c. c * 2) (take 6 (ljust6 callsign)) ++ (if last then ssid * 2 + 1 else ssid * 2) ∷ []

pub record Address : Type 0 where
  pub callsign : List ℕ
  pub ssid : ℕ

-- A callsign of at most six printable characters, none of them a space.
pub record IsAddress (a : Address) : Type 0 where
  pub fits : length a.callsign ≤ 6
  pub graphic : all is_graphic a.callsign ≡ true

-- The address fields of a path: only the last one has its extension bit set.
unfoldable pub path_bytes : Address → List Address → List ℕ
unfolding shifted_address
path_bytes a [] = shifted_address a.callsign a.ssid true
path_bytes a (b ∷ path) = shifted_address a.callsign a.ssid false ++ path_bytes b path

unfoldable pub build_ax25_frame : (List ℕ → ℕ) → List ℕ → List ℕ → List ℕ → Bool → List ℕ
build_ax25_frame calc addresses control_pid info append_fcs =
    let body = addresses ++ (control_pid ++ info) in
    if append_fcs then body ++ fcs_bytes (calc body) else body

take_self : (cs : List ℕ) → take (length cs) cs ≡ cs
take_self [] = refl
take_self (c ∷ cs) = ap (◌∷◌ c) (take_self cs)

length-spaces : (n : ℕ) → length (spaces n) ≡ n
length-spaces zero = refl
length-spaces (suc n) = ap suc (length-spaces n)

length-map_double : (cs : List ℕ) → length (map (λ c. c * 2) cs) ≡ length cs
length-map_double [] = refl
length-map_double (c ∷ cs) = ap suc (length-map_double cs)

halve_double : (cs : List ℕ) → map (λ b. shr b 1) (map (λ c. c * 2) cs) ≡ cs
halve_double [] = refl
halve_double (c ∷ cs) = let e : shr (c * 2) 1 ≡ c = omega arith in cc (e, halve_double cs)

all_ascii-pad :
    (cs : List ℕ) (n : ℕ) → all is_graphic cs ≡ true → all is_ascii (cs ++ spaces n) ≡ true
all_ascii-pad [] zero h = refl
all_ascii-pad [] (suc n) h = all_ascii-pad [] n h
all_ascii-pad (c ∷ cs) n h = ground (arith, all_ascii-pad cs n)

module _ (a : Address) (v : IsAddress a) (last : Bool) where
  length-ljust6 : length (ljust6 a.callsign) ≡ 6
  length-ljust6 = omega (
    arith,
    length-append a.callsign (spaces (6 - length a.callsign)),
    length-spaces (6 - length a.callsign),
    v.fits,
  )

  take-ljust6 : take 6 (ljust6 a.callsign) ≡ ljust6 a.callsign
  take-ljust6 =
      ap (λ n. take n (ljust6 a.callsign)) (sym length-ljust6) ∙ take_self (ljust6 a.callsign)

  pub length-shifted_address : length (shifted_address a.callsign a.ssid last) ≡ 7
  unfolding shifted_address
  length-shifted_address = rw take-ljust6 (
      omega (
        arith,
        length-append (map (λ c. c * 2) (ljust6 a.callsign))
            ((if last then a.ssid * 2 + 1 else a.ssid * 2) ∷ []),
        length-map_double (ljust6 a.callsign),
        length-ljust6,
      ))

  -- The decoder reads an address field back as its callsign.
  pub decode_address-shifted_address :
      decode_address (shifted_address a.callsign a.ssid last) ≡ ok a.callsign
  unfolding decode_address shifted_address
  decode_address-shifted_address =
      let shifted = map (λ c. c * 2) (ljust6 a.callsign) in
      let six : length shifted ≡ 6 = length-map_double (ljust6 a.callsign) ∙ length-ljust6 in
      let flag : List ℕ = (if last then a.ssid * 2 + 1 else a.ssid * 2) ∷ [] in
      let first_six : take 6 (shifted ++ flag) ≡ shifted =
        ap (λ n. take n (shifted ++ flag)) (sym six) ∙ take-length shifted flag in
      rw
        (
          take-ljust6,
          first_six,
          halve_double (ljust6 a.callsign),
          decode_ascii-all _ (all_ascii-pad a.callsign (6 - length a.callsign) v.graphic),
        )
        (ap ok (strip-pad a.callsign (6 - length a.callsign) v.graphic))

  -- The extension bit tells the last field from the others.
  pub is_last-shifted_address : is_last_address (shifted_address a.callsign a.ssid last) ≡ last
  unfolding shifted_address
  is_last-shifted_address =
      let shifted = map (λ c. c * 2) (ljust6 a.callsign) in
      let six : length shifted ≡ 6 = length-map_double (ljust6 a.callsign) ∙ length-ljust6 in
      let flag = if last then a.ssid * 2 + 1 else a.ssid * 2 in
      let seventh : get_or (shifted ++ flag ∷ []) 6 0 ≡ flag =
        ap (λ n. get_or (shifted ++ flag ∷ []) n 0) (sym six) ∙ get_or-length shifted [] flag 0 in
      rw (take-ljust6, seventh) (ground arith)
