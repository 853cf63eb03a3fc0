-- ===== src/Decode/FrameSync/Octets.antt =====
-- `bits_to_bytes` against the transmitter's order of bits: each octet is sent with its least
-- significant bit first.
use mathlib.Core.List.{reverse}
use leo_telemetry.Base.{
  ℕ, ◌+◌, ◌-◌, ◌*◌, ◌/◌, ◌%◌, ◌≡◌, refl, ap, List, [], ◌∷◌, ◌++◌, true, false, not, ◌==◌, any,
  arith, length, All, IsByte,
}
use leo_telemetry.Base.Result.{ok}
use leo_telemetry.Decode.FrameSync.{is_bit, octets, bits_to_bytes, int_base2}
use leo_telemetry.Decode.FrameSync.Stuffing.{AllBits}

abbrev pub bit_char : ℕ → ℕ
bit_char n = b'0' + n % 2

-- f"{byte:08b}"[::-1] of the tests
abbrev pub byte_bits : ℕ → List ℕ
byte_bits b =
    bit_char b
    ∷ bit_char (b / 2)
    ∷ bit_char (b / 4)
    ∷ bit_char (b / 8)
    ∷ bit_char (b / 16)
    ∷ bit_char (b / 32)
    ∷ bit_char (b / 64)
    ∷ bit_char (b / 128)
    ∷ []

abbrev pub bytes_bits : List ℕ → List ℕ
bytes_bits [] = []
bytes_bits (b ∷ bs) = byte_bits b ++ bytes_bits bs

is_bit-bit_char : (n : ℕ) → is_bit (bit_char n) ≡ true
is_bit-bit_char n = ground arith

bit_value : (n : ℕ) → bit_char n - b'0' ≡ n % 2
bit_value n = omega arith

pub AllBits-bytes_bits : (bs : List ℕ) → AllBits (bytes_bits bs)
AllBits-bytes_bits [] = refl
AllBits-bytes_bits (b ∷ bs) = simp (is_bit-bit_char, AllBits-bytes_bits bs)

pub length-bytes_bits : (bs : List ℕ) → length (bytes_bits bs) ≡ length bs * 8
length-bytes_bits [] = refl
length-bytes_bits (b ∷ bs) = omega (arith, length-bytes_bits bs)

int_base2-byte_bits : (b : ℕ) → IsByte b → int_base2 (reverse (byte_bits b)) ≡ b
int_base2-byte_bits b h = simp bit_value (omega arith)

octets-bytes_bits : (bs : List ℕ) → All IsByte bs → octets (length bs) (bytes_bits bs) ≡ bs
unfolding octets
octets-bytes_bits [] h = refl
octets-bytes_bits (b ∷ bs) h = cc (int_base2-byte_bits b h.0, octets-bytes_bits bs h.1)

pub any-not : (bits : List ℕ) → AllBits bits → any (λ b. not (is_bit b)) bits ≡ false
any-not [] h = refl
any-not (b ∷ bits) h = ground (arith, any-not bits)

-- `bits_to_bytes` reads back the bytes whose bits were sent, least significant bit first.
pub bits_to_bytes-bytes_bits : (bs : List ℕ) → All IsByte bs → bits_to_bytes (bytes_bits bs) ≡ ok bs
unfolding bits_to_bytes
bits_to_bytes-bytes_bits bs h =
    let whole : (length (bytes_bits bs) % 8 == 0) ≡ true = ground (arith, length-bytes_bits bs) in
    let rounds : length (bytes_bits bs) / 8 ≡ length bs = omega (arith, length-bytes_bits bs) in
    rw (whole, any-not (bytes_bits bs) (AllBits-bytes_bits bs), rounds)
      (ap ok (octets-bytes_bits bs h))
