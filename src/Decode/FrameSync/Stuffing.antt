-- ===== src/Decode/FrameSync/Stuffing.antt =====
-- `bit_destuff` against the transmitter's bit stuffing, tests/test_decode/helpers.py `stuff_bits`.
use leo_telemetry.Base.{
  ℕ, ◌+◌, ◌≤◌, ◌<◌, ◌≡◌, refl, ap, sym, ◌⊎◌, inl, inr, List, [], ◌∷◌, ◌++◌, true, ◌==◌,
  if◌then◌else◌, all, arith, append-nil, append_assoc, Bool-cases, ◌≢◌,
}
use leo_telemetry.Base.Result.{ok}
use leo_telemetry.Decode.FrameSync.{is_bit, destuff_from, bit_destuff}

-- The count of ones after a bit, the zero that follows the fifth, and the count after that zero.
abbrev pub count_ones : ℕ → ℕ → ℕ
count_ones ones b = if b == b'1' then ones + 1 else 0

abbrev pub padding : ℕ → List ℕ
padding ones = if ones == 5 then b'0' ∷ [] else []

abbrev pub reset : ℕ → ℕ
reset ones = if ones == 5 then 0 else ones

unfoldable pub stuff_from : ℕ → List ℕ → List ℕ
stuff_from ones [] = []
stuff_from ones (b ∷ bits) =
    b ∷ padding (count_ones ones b) ++ stuff_from (reset (count_ones ones b)) bits

unfoldable pub stuff_bits : List ℕ → List ℕ
unfolding stuff_from
stuff_bits bits = stuff_from 0 bits

abbrev pub AllBits : List ℕ → Type 0
AllBits bits = all is_bit bits ≡ true

destuff-stuff_from :
    (bits : List ℕ) (ones : ℕ) (out : List ℕ)
    → AllBits bits
    → ones < 5
    → destuff_from (stuff_from ones bits) ones out ≡ ok (out ++ bits)
unfolding destuff_from stuff_from
destuff-stuff_from [] ones out h k = ap ok (sym (append-nil out))
destuff-stuff_from (b ∷ bits) ones out h k = ground (
  arith,
  append_assoc out (b ∷ []) bits,
  append-nil (out ++ b ∷ []),
  destuff-stuff_from bits (ones + 1) (out ++ b ∷ []),
  destuff-stuff_from bits 0 (out ++ b ∷ []),
  destuff-stuff_from bits 0 ((out ++ b ∷ []) ++ []),
)

AllBits-stuff_from : (bits : List ℕ) (ones : ℕ) → AllBits bits → AllBits (stuff_from ones bits)
unfolding stuff_from
AllBits-stuff_from [] ones h = refl
AllBits-stuff_from (b ∷ bits) ones h =
    ground (arith, AllBits-stuff_from bits (ones + 1), AllBits-stuff_from bits 0)

pub AllBits-stuff_bits : (bits : List ℕ) → AllBits bits → AllBits (stuff_bits bits)
unfolding stuff_bits
AllBits-stuff_bits bits = AllBits-stuff_from bits 0

-- A receiver destuffs what a transmitter stuffed: for every bitstring that is not empty,
-- `bit_destuff` returns the bits that `stuff_bits` was given, and does not raise.
pub bit_destuff-stuff_bits :
    (bits : List ℕ) → AllBits bits → bits ≢ [] → bit_destuff (stuff_bits bits) ≡ ok bits
unfolding bit_destuff stuff_bits stuff_from
bit_destuff-stuff_bits [] h ne = absurd (ne refl)
bit_destuff-stuff_bits (b ∷ bits) h ne =
    let sent = stuff_from 0 (b ∷ bits) in
    let valid : AllBits sent = AllBits-stuff_from (b ∷ bits) 0 h in
    rw valid (destuff-stuff_from (b ∷ bits) 0 [] h (omega arith))

-- What `destuff_from` accepts, stuffed again, is what it was given, up to the zero that a stuffer
-- adds after five ones at the very end.
stuff-destuff_from :
    (bits : List ℕ) (ones : ℕ) (out r : List ℕ)
    → AllBits bits
    → ones ≤ 5
    → destuff_from bits ones out ≡ ok r
    → (kept : List ℕ) × (r ≡ out ++ kept)
      × ((padding ones ++ stuff_from (reset ones) kept ≡ bits)
          ⊎ (padding ones ++ stuff_from (reset ones) kept ≡ bits ++ b'0' ∷ []))
unfolding destuff_from stuff_from
stuff-destuff_from [] ones out r h k e = ([], ground (arith, append-nil out), ground arith)
stuff-destuff_from (b ∷ bits) ones out r h k e = elim (Bool-cases (b == b'1')) [
  | inl one ↦
      let (kept, eq, sent) =
        stuff-destuff_from bits (ones + 1) (out ++ b ∷ []) r (ground arith) (ground arith)
          (ground arith) in
      (b ∷ kept, ground (arith, append_assoc out (b ∷ []) kept), ground arith)
  | inr zero_bit ↦ elim (Bool-cases (ones == 5)) [
    | inl stuffed ↦
        let (kept, eq, sent) =
          stuff-destuff_from bits 0 (out ++ []) r (ground arith) (omega arith) (ground arith) in
        (kept, ground (arith, append-nil out), ground arith)
    | inr plain ↦
        let (kept, eq, sent) =
          stuff-destuff_from bits 0 (out ++ b ∷ []) r (ground arith) (omega arith) (ground arith) in
        (b ∷ kept, ground (arith, append_assoc out (b ∷ []) kept), ground arith)
  ]
]

-- Conversely, whatever `bit_destuff` accepts is the stuffed form of what it returns, up to the zero
-- that a stuffer adds after five ones at the very end.
pub stuff_bits-bit_destuff :
    (bits r : List ℕ)
    → bit_destuff bits ≡ ok r
    → (stuff_bits r ≡ bits) ⊎ (stuff_bits r ≡ bits ++ b'0' ∷ [])
unfolding bit_destuff stuff_bits
stuff_bits-bit_destuff [] r e = cc
stuff_bits-bit_destuff (b ∷ bits) r e = elim (Bool-cases (all is_bit (b ∷ bits))) [
  | inl valid ↦
      let (kept, eq, sent) =
        stuff-destuff_from (b ∷ bits) 0 [] r valid (omega arith) (rw valid at e) in
      rw eq sent
  | inr invalid ↦ ground arith
]
