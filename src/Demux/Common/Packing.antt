-- ===== src/Demux/Common/Packing.antt =====
-- What `unpack_from_view` reads out of a buffer in which a transmitter packed the fields.
use leo_telemetry.Base.{
  ℕ, ◌+◌, ◌*◌, ◌^◌, ◌≤◌, ◌<◌, ◌≡◌, refl, sym, ap, ◌∙◌, List, [], ◌∷◌, ◌++◌, append_assoc, arith,
  length, drop, slice, le→ltb, length-append, length-drop, drop-length, drop-drop, slice_of_drop,
  ltb, false,
}
use leo_telemetry.Base.Result.{ok}
use leo_telemetry.Demux.Common.{ByteOrder, Struct, sum, size, unpack, unpack_from_view}
use leo_telemetry.Demux.Common.Numbers.{number_bytes, length-number_bytes, number-number_bytes}

-- The values fill the fields: one for each, within its width.
abbrev pub Fits : List ℕ → List ℕ → Type 0
Fits [] [] = Unit
Fits [] (v ∷ values) = ⊥
Fits (w ∷ widths) [] = ⊥
Fits (w ∷ widths) (v ∷ values) = (v < 2 ^ (8 * w)) × Fits widths values

-- format.pack(*values)
unfoldable pub pack : ByteOrder → List ℕ → List ℕ → List ℕ
pack order [] values = []
pack order (w ∷ widths) [] = []
pack order (w ∷ widths) (v ∷ values) = number_bytes order w v ++ pack order widths values

abbrev pub packed : Struct → List ℕ → List ℕ
packed s values = pack s.order s.widths values

pub length-pack :
    (order : ByteOrder) (widths values : List ℕ)
    → Fits widths values
    → length (pack order widths values) ≡ sum widths
unfolding pack
length-pack order [] [] h = refl
length-pack order [] (v ∷ values) h = absurd h
length-pack order (w ∷ widths) [] h = absurd h
length-pack order (w ∷ widths) (v ∷ values) h =
    let rest = length-pack order widths values h.1 in
    let first = length-number_bytes order w v in
    omega (arith, length-append (number_bytes order w v) (pack order widths values), rest, first)

-- The place behind the next bytes.
pub drop_next {ℓ} :
    {A : Type ℓ} (buffer bytes more : List A) (offset w : ℕ)
    → drop offset buffer ≡ bytes ++ more
    → length bytes ≡ w
    → drop (offset + w) buffer ≡ more
drop_next buffer bytes more offset w found wide =
    sym (drop-drop w offset buffer)
    ∙ ap (drop w) found
    ∙ ap (λ k. drop k (bytes ++ more)) (sym wide)
    ∙ drop-length bytes more

unpack-pack :
    (order : ByteOrder) (widths values buffer rest : List ℕ) (offset : ℕ)
    → Fits widths values
    → drop offset buffer ≡ pack order widths values ++ rest
    → unpack order widths buffer offset ≡ values
unfolding unpack pack
unpack-pack order [] [] buffer rest offset h e = refl
unpack-pack order [] (v ∷ values) buffer rest offset h e = absurd h
unpack-pack order (w ∷ widths) [] buffer rest offset h e = absurd h
unpack-pack order (w ∷ widths) (v ∷ values) buffer rest offset h e =
    let bytes = number_bytes order w v in
    let more = pack order widths values ++ rest in
    let wide : length bytes ≡ w = length-number_bytes order w v in
    let found : drop offset buffer ≡ bytes ++ more =
      e ∙ append_assoc bytes (pack order widths values) rest in
    let here : slice buffer offset (offset + w) ≡ bytes =
      ap (λ k. slice buffer offset (offset + k)) (sym wide)
      ∙ slice_of_drop buffer offset bytes more found in
    let next = drop_next buffer bytes more offset w found wide in
    rw (here, number-number_bytes order w v h.0)
      (ap (λ vs. v ∷ vs) (unpack-pack order widths values buffer rest (offset + w) h.1 next))

-- Unpacking at the place where fields were packed returns their values.
pub unpack_from_view-packed :
    (s : Struct) (values buffer rest : List ℕ) (offset : ℕ)
    → Fits s.widths values
    → offset ≤ length buffer
    → drop offset buffer ≡ packed s values ++ rest
    → unpack_from_view s buffer offset ≡ ok values
unfolding unpack_from_view
unpack_from_view-packed s values buffer rest offset h inside e =
    let long : ltb (length buffer) (offset + size s) ≡ false = le→ltb _ _ (
      omega (
        arith,
        inside,
        length-drop offset buffer,
        ap length e,
        length-append (packed s values) rest,
        length-pack s.order s.widths values h,
      )) in
    rw long (ap (λ vs. ok vs) (unpack-pack s.order s.widths values buffer rest offset h e))
