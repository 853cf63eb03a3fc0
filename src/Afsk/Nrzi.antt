-- ===== src/Afsk/Nrzi.antt =====
-- The line code of the demodulator's bits, and the end of its inner loop.
use leo_telemetry.Base.{
  ℕ, ◌≡◌, refl, ap, List, [], ◌∷◌, Bool, true, false, not, ◌==◌, if◌then◌else◌, Bool-cases, inl,
  inr, arith, ◌∙◌,
}
use leo_telemetry.Decode.FrameSync.{is_bit}
use leo_telemetry.Decode.FrameSync.Stuffing.{AllBits}
use leo_telemetry.Afsk.{nrzi_bit, nrzi_decode}

-- The tones of a transmitter: a zero changes the tone, a one keeps it.
abbrev pub nrzi_encode : Bool → List ℕ → List Bool
nrzi_encode tone [] = tone ∷ []
nrzi_encode tone (b ∷ bits) = tone ∷ nrzi_encode (if b == b'1' then tone else not tone) bits

nrzi_decode_head :
    (x y : Bool) (bits : List ℕ)
    → nrzi_decode (x ∷ nrzi_encode y bits) ≡ nrzi_bit x y ∷ nrzi_decode (nrzi_encode y bits)
unfolding nrzi_decode
nrzi_decode_head x y [] = refl
nrzi_decode_head x y (b ∷ bits) = refl

nrzi_bit-encoded :
    (tone : Bool) (b : ℕ)
    → is_bit b ≡ true
    → nrzi_bit tone (if b == b'1' then tone else not tone) ≡ b
nrzi_bit-encoded true b h = ground arith
nrzi_bit-encoded false b h = ground arith

-- The tones of a transmitter are read back as its bits, whichever tone it starts with.
pub nrzi_decode-nrzi_encode :
    (tone : Bool) (bits : List ℕ) → AllBits bits → nrzi_decode (nrzi_encode tone bits) ≡ bits
unfolding nrzi_decode
nrzi_decode-nrzi_encode tone [] h = refl
nrzi_decode-nrzi_encode tone (b ∷ bits) h = elim (Bool-cases (is_bit b)) [
  | inl bit ↦
      let after = if b == b'1' then tone else not tone in
      nrzi_decode_head tone after bits
      ∙ ap (λ x. x ∷ nrzi_decode (nrzi_encode after bits)) (nrzi_bit-encoded tone b bit)
      ∙ ap (λ xs. b ∷ xs) (nrzi_decode-nrzi_encode after bits (ground arith))
  | inr other ↦ absurd (ground arith)
]
