-- ===== src/Decode/FrameSync/Flags.antt =====
-- Where the search for flags stops: stuffed bits hold no run of six ones, so the first flag behind
-- them is the one that the transmitter sent.
use leo_telemetry.Base.{
  ℕ, zero, suc, ◌+◌, ◌<◌, ◌≡◌, refl, ap, List, [], ◌∷◌, ◌++◌, Bool, true, false, not, ◌&&◌, ◌||◌,
  none, some, ltb, ◌==◌, arith, length,
}
use leo_telemetry.Decode.FrameSync.{flag_bits, starts_with, find_in}
use leo_telemetry.Decode.FrameSync.Stuffing.{count_ones, stuff_from, stuff_bits}

-- After `ones` ones in a row, the bits complete no run of six.
abbrev pub no_six : ℕ → List ℕ → Bool
no_six ones [] = true
no_six ones (b ∷ bits) = (not (b == b'1') || ltb ones 5) && no_six (count_ones ones b) bits

no_six-stuff_from :
    (bits : List ℕ) (ones : ℕ) → ones < 5 → no_six ones (stuff_from ones bits) ≡ true
unfolding stuff_from
no_six-stuff_from [] ones h = refl
no_six-stuff_from (b ∷ bits) ones h =
    ground (arith, no_six-stuff_from bits (ones + 1), no_six-stuff_from bits 0)

-- Stuffed bits hold no run of six ones.
pub no_six-stuff_bits : (bits : List ℕ) → no_six 0 (stuff_bits bits) ≡ true
unfolding stuff_bits
no_six-stuff_bits bits = no_six-stuff_from bits 0 (omega arith)

-- The rest of a flag, of which `n` ones are to come.
abbrev rest_of_flag : ℕ → List ℕ
rest_of_flag zero = b'0' ∷ []
rest_of_flag (suc n) = b'1' ∷ rest_of_flag n

no_flag_across :
    (bits r : List ℕ) (n ones : ℕ)
    → n + ones ≡ 5
    → no_six ones bits ≡ true
    → starts_with (rest_of_flag (suc n)) (bits ++ b'0' ∷ r) ≡ false
no_flag_across [] r n ones e h = refl
no_flag_across (b ∷ bits) r zero ones e h = ground arith
no_flag_across (b ∷ bits) r (suc n) ones e h = ground (arith, no_flag_across bits r n (ones + 1))

no_flag_within :
    (bits : List ℕ) (n ones : ℕ)
    → n + ones ≡ 5
    → no_six ones bits ≡ true
    → starts_with (rest_of_flag (suc n)) bits ≡ false
no_flag_within [] n ones e h = refl
no_flag_within (b ∷ bits) zero ones e h = ground arith
no_flag_within (b ∷ bits) (suc n) ones e h = ground (arith, no_flag_within bits n (ones + 1))

-- The first flag after bits with no run of six ones is the one that follows them.
pub find_in-flag :
    (bits r : List ℕ) (ones i : ℕ)
    → no_six ones bits ≡ true
    → find_in flag_bits (bits ++ (flag_bits ++ r)) i ≡ some (i + length bits)
unfolding find_in
find_in-flag [] r ones i h = ap some (omega arith)
find_in-flag (b ∷ bits) r ones i h = ground (
  arith,
  no_flag_across bits (b'1' ∷ b'1' ∷ b'1' ∷ b'1' ∷ b'1' ∷ b'1' ∷ b'0' ∷ r) 5 0,
  find_in-flag bits r (count_ones ones b) (i + 1),
)

-- Bits with no run of six ones hold no flag.
pub find_in-none :
    (bits : List ℕ) (ones i : ℕ) → no_six ones bits ≡ true → find_in flag_bits bits i ≡ none
unfolding find_in
find_in-none [] ones i h = refl
find_in-none (b ∷ bits) ones i h =
    ground (arith, no_flag_within bits 5 0, find_in-none bits (count_ones ones b) (i + 1))
